-- ===== src/Processes/Tests.antt =====
-- The calls in a kernel with two ready tasks, in which the running process has its data pages.
use so2_project.Common.{
  ℕ, ◌+◌, ◌-◌, ◌/◌, ◌≡◌, refl, sym, ◌∙◌, ◌≢◌, pos, none, some, true, false, ◌&&◌, ◌||◌, List, [],
  ◌∷◌, map, arith, ltb, leb, ◌==◌, if◌then◌else◌, remove,
}
use so2_project.Address.{page_size}
use so2_project.Links.Family.{Family, dequeue}
use so2_project.Links.Family.Init.{enqueue_range}
use so2_project.Paging.{PageTable, zero_entry, get_frame}
use so2_project.Kernel.{
  Kernel, freequeue, list_of, task_address, thread_child_list_of, thread_child_anchor_of,
  list_head_to_task_struct,
}
use so2_project.Boot.Queues.{free_tasks, empty_queues, sched_family}
use so2_project.Boot.Start.{idle_family, boot_family}
use so2_project.Interrupts.Wakeup.{IsSched-frame}
use so2_project.Sched.Inv.{IsSched}
use so2_project.Regions.{find_gap, scan}
use so2_project.Frames.{alloc_from, alloc_frame}
use so2_project.Paging.{set_ss_pag}
use so2_project.Regions.{map_pages}
use so2_project.Processes.Fork.Inherit.{Inherits, sys_fork-Inherits}
use so2_project.Processes.Threads.{Request}
use so2_project.Processes.Exit.{sys_exit}
use so2_project.Processes.Exit.Queues.{Exited, MayExit, sys_exit-IsSched}
use so2_project.Processes.Exit.Stuck.{sys_exit-stuck}
use so2_project.Processes.Fork.{sys_fork}
use so2_project.Processes.Fork.Cases.{own_pt}
use so2_project.Processes.Fork.Queues.{IsAside}
use so2_project.Processes.Fork.Room.{IsParent, FitsTemp, fork_gap, fork_frames}
use so2_project.Processes.Fork.Stack.{IsStack}
use so2_project.Processes.Fork.Child.{CanBegin}
use so2_project.Samples.{two_family, two_more, two_more-IsSched, two_more-idle, two_free}

-- The data pages 264 to 283 of the running process are the frames 564 to 583.
abbrev data_table : PageTable
data_table p =
    if leb 264 p && ltb p 284
    then record zero_entry { pbase_addr = 300 + p; present = 1 }
    else zero_entry

abbrev loaded : Kernel
loaded = record two_more {
  current = task_address 1;
  tasks = λ u. record (two_more.tasks u) { dir_pages_base = (u - task_address 0) / page_size };
  dir_pages = λ i. record zero_entry { pbase_addr = 48 + i; present = 1 };
  pagusr_table = λ j. if j == 1 then data_table else (λ p. zero_entry);
  phys_mem = λ i. if ltb i 256 || (leb 564 i && ltb i 584) then 1 else 0;
}

loaded-IsSched : IsSched loaded two_family
loaded-IsSched = IsSched-frame two_more-IsSched.0 refl refl (sym two_more-IsSched.1) (λ u. refl)

-- The first free task structure.
abbrev child_entry : ℕ
child_entry = list_of (task_address 4)

child-IsAside :
    IsAside (dequeue two_family child_entry freequeue) (list_head_to_task_struct child_entry)
unfolding boot_family idle_family sched_family empty_queues free_tasks enqueue_range remove
    list_head_to_task_struct
child-IsAside = record { children = refl; anchor = refl; memory = refl }

data_gap : fork_gap data_table ≡ some 284
unfolding find_gap scan
data_gap = refl

data-FitsTemp : FitsTemp data_table
data-FitsTemp g e = let h : some 284 ≡ some g = sym data_gap ∙ e in ground arith

loaded-IsParent : IsParent data_table loaded.phys_mem
unfolding get_frame
loaded-IsParent = record {
  present = λ p d. ground arith;
  taken = λ p d e. ground arith;
  above = λ p d. ground arith;
}

loaded-CanBegin :
    CanBegin loaded two_family child_entry (map list_of (map task_address (5 ∷ 6 ∷ 7 ∷ 8 ∷ 9 ∷ [])))
unfolding list_head_to_task_struct
loaded-CanBegin = record {
  free = two_free;
  aside = child-IsAside;
  apart = λ e. omega arith;
  parent = loaded-IsParent;
  fits = data-FitsTemp;
}

abbrev others : List ℕ
others = map list_of (map task_address (5 ∷ 6 ∷ 7 ∷ 8 ∷ 9 ∷ []))

abbrev child : ℕ
child = list_head_to_task_struct child_entry

abbrev left : Family
left = dequeue two_family child_entry freequeue

-- An address on the stack of the caller, and that of a routine.
abbrev frame_pointer : ℕ
frame_pointer = task_address 1 + 4000

loaded-frames : fork_frames (loaded.pagusr_table (own_pt loaded child)) loaded.phys_mem ≡ true
unfolding map_pages alloc_frame alloc_from set_ss_pag list_head_to_task_struct
loaded-frames = refl

loaded-IsStack : IsStack loaded.current child frame_pointer
unfolding list_head_to_task_struct
loaded-IsStack = record {
  current_low = omega arith;
  child_low = omega arith;
  above = omega arith;
  below = omega arith;
}

sys_fork-Inherits_example :
    Inherits loaded child 284 (λ a. a) 270 17 (sys_fork loaded (λ a. a) frame_pointer 0x12000)
sys_fork-Inherits_example =
    sys_fork-Inherits child_entry others loaded-IsSched loaded-CanBegin (λ a. a) frame_pointer
      0x12000 270 17 284 loaded-IsStack (omega arith, omega arith) (omega arith) loaded-frames
      data_gap

-- The list of threads of the first process, which is empty.
abbrev threads : ℕ
threads = thread_child_list_of (task_address 1)

threads_head :
    (two_family.owner threads ≡ some threads)
    × (two_family.queue threads ≡ [])
    × (left.owner threads ≡ some threads)
unfolding boot_family idle_family sched_family empty_queues free_tasks enqueue_range remove
    list_head_to_task_struct
threads_head = (refl, refl, refl)

-- The same kernel, with the fields that the first process has.
abbrev master : Kernel
master = record loaded {
  tasks = λ u. record (loaded.tasks u) {
    pid = pos 1;
    master_thread = pos 1;
    master_thread_address = task_address 1;
    has_threads = false;
  };
}

master-IsSched : IsSched master two_family
master-IsSched = IsSched-frame loaded-IsSched refl refl refl (λ u. refl)

abbrev request : Request
request = record {
  function = 0x100000;
  num_pages = pos 2;
  parameter = 7;
  ext = 0x100040;
  ebp = frame_pointer;
  ret = 0x12000;
}

master-idle : master.current ≢ master.idle_task
master-idle e = two_more-idle (two_more-IsSched.1 ∙ e)

sys_exit-IsSched_example : Exited master two_family 264 20 (sys_exit 0 master)
sys_exit-IsSched_example =
    sys_exit-IsSched master-IsSched master-idle
      (MayExit.process refl refl threads_head.0 threads_head.1) 0

-- A process with a thread in the task structure 2.
abbrev with_thread : Kernel
with_thread = record master {
  tasks = λ u. record (master.tasks u) { has_threads = true };
  links = λ a. record {
    next = thread_child_anchor_of (task_address 2);
    prev = thread_child_anchor_of (task_address 2);
  };
}

sys_exit-stuck_example : sys_exit 1000 with_thread ≡ none
sys_exit-stuck_example =
    sys_exit-stuck with_thread (thread_child_anchor_of (task_address 2)) refl refl refl refl
      (omega arith) 1000
