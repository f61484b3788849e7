-- ===== src/Samples.antt =====
-- A kernel after main, and then with two tasks more that are ready, for tests.
use so2_project.Common.{◌≡◌, refl, ◌∙◌, ◌≢◌, pos, false, [], ◌∷◌, map, arith, remove, true, sym, ℤ}
use so2_project.Links.Family.{Family, enqueue, dequeue}
use so2_project.Links.Family.Init.{enqueue_range}
use so2_project.Stats.{Stats}
use so2_project.Paging.{zero_entry}
use so2_project.Kernel.{
  Kernel, Task, st_run, freequeue, readyqueue, get_key_blocked, list_of, task_address,
  list_head_to_task_struct,
}
use so2_project.Boot.{boot, take_free}
use so2_project.Boot.Queues.{free_tasks, empty_queues, sched_family}
use so2_project.Boot.Start.{idle_family, boot_family, boot-IsSched}
use so2_project.Sched.Inv.{IsSched, next_task}
use so2_project.Syscalls.{ask, wait_key}
use so2_project.Syscalls.Keys.{ask-IsSched, wait_key-IsSched}
use so2_project.Sched.Wake.{make_ready, make_ready-IsSched, take_free-IsSched}

abbrev pub zero_stats : Stats
zero_stats = record {
  user_ticks = 0;
  system_ticks = 0;
  blocked_ticks = 0;
  ready_ticks = 0;
  elapsed_total_ticks = 0;
  total_trans = 0;
  remaining_ticks = 0;
}

abbrev pub zero_task : Task
zero_task = record {
  pid = pos 0;
  master_thread = pos 0;
  master_thread_address = 0;
  dir_pages_base = 0;
  register_esp = 0;
  state = st_run;
  total_quantum = pos 0;
  p_stats = zero_stats;
  pending_unblocks = pos 0;
  key_timeout = pos 0;
  has_threads = false;
  thread_user_stack_base_page = 0;
  thread_user_stack_num_page = pos 0;
}

-- The memory as it is loaded, with zeros wherever no value is given.
abbrev pub zeros : Kernel
zeros = record {
  links = λ a. record { next = 0; prev = 0 };
  tasks = λ t. zero_task;
  current = 0;
  idle_task = 0;
  remaining_quantum = pos 0;
  zeos_ticks = pos 0;
  pending_to_service = pos 0;
  make_flag = true;
  keyboard_buffer = record {
    head = pos 0;
    tail = pos 0;
    num_elem = pos 0;
    buffer = pos 0 ∷ pos 0 ∷ pos 0 ∷ [];
  };
  sems = λ a. record { count = pos 0; tid = pos 0 };
  phys_mem = λ i. 0;
  dir_pages = λ t. zero_entry;
  pagusr_table = λ t i. zero_entry;
  global_pid = pos 1000;
  screen = record { x = 0; y = 0; cells = λ i. 0 };
  cr3 = 0;
  esp0 = 0;
  clock = λ n. n;
  reads = 0;
}

-- One task more.
abbrev pub one_family : Family
one_family =
    enqueue (dequeue boot_family (list_of (task_address 2)) freequeue) (list_of (task_address 2))
      readyqueue

abbrev pub one_more : Kernel
one_more = make_ready (take_free (boot zeros)).1 (task_address 2)

pub one_more-IsSched : IsSched one_more one_family × (one_more.current ≡ task_address 1)
unfolding boot_family idle_family sched_family empty_queues free_tasks enqueue_range remove
    list_head_to_task_struct
one_more-IsSched =
    let b = boot-IsSched zeros in
    let rest = map list_of (map task_address (3 ∷ 4 ∷ 5 ∷ 6 ∷ 7 ∷ 8 ∷ 9 ∷ [])) in
    let t = take_free-IsSched (list_of (task_address 2)) rest b.0 refl in
    (make_ready-IsSched (task_address 2) t.1 refl (λ h. absurd (apart (h ∙ b.1))) refl, b.1)
  where
    apart : task_address 2 ≢ task_address 1
    apart h = omega arith

-- And another.
abbrev pub two_family : Family
two_family =
    enqueue (dequeue one_family (list_of (task_address 3)) freequeue) (list_of (task_address 3))
      readyqueue

abbrev pub two_more : Kernel
two_more = make_ready (take_free one_more).1 (task_address 3)

pub two_more-IsSched : IsSched two_more two_family × (two_more.current ≡ task_address 1)
unfolding boot_family idle_family sched_family empty_queues free_tasks enqueue_range remove
    list_head_to_task_struct
two_more-IsSched =
    let (v, cur) = one_more-IsSched in
    let rest = map list_of (map task_address (4 ∷ 5 ∷ 6 ∷ 7 ∷ 8 ∷ 9 ∷ [])) in
    let t = take_free-IsSched (list_of (task_address 3)) rest v refl in
    (make_ready-IsSched (task_address 3) t.1 refl (λ h. absurd (apart (h ∙ cur))) refl, cur)
  where
    apart : task_address 3 ≢ task_address 1
    apart h = omega arith

pub two_ready : two_family.queue readyqueue ≡ map list_of (map task_address (2 ∷ 3 ∷ []))
unfolding boot_family idle_family sched_family empty_queues free_tasks enqueue_range remove
two_ready = refl

pub two_free :
    two_family.queue freequeue ≡ map list_of (map task_address (4 ∷ 5 ∷ 6 ∷ 7 ∷ 8 ∷ 9 ∷ []))
unfolding boot_family idle_family sched_family empty_queues free_tasks enqueue_range remove
two_free = refl

pub two_more-idle : two_more.current ≢ two_more.idle_task
two_more-idle h =
    let e : task_address 1 ≡ task_address 0 = sym two_more-IsSched.1 ∙ h ∙ (boot-IsSched zeros).2 in
    absurd (omega arith)

-- The running process waits for a key, for the given number of ticks.
abbrev pub waiting : ℤ → Kernel
waiting timeout = wait_key (ask two_more timeout)

abbrev pub waiting_family : Family
waiting_family =
    (next_task two_more.idle_task (enqueue two_family (list_of two_more.current) get_key_blocked)).1

pub waiting-IsSched : (timeout : ℤ) → IsSched (waiting timeout) waiting_family
waiting-IsSched timeout =
    (wait_key-IsSched (ask-IsSched timeout two_more-IsSched.0) two_more-idle).0

pub waiting_queue : waiting_family.queue get_key_blocked ≡ list_of two_more.current ∷ []
unfolding boot_family idle_family sched_family empty_queues free_tasks enqueue_range remove
waiting_queue = refl
