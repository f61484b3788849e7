-- ===== src/Processes.antt =====
-- What sys_fork, sys_threadCreateWithStack and sys_exit of sys.c have in common: the copy of a task
-- structure, the page table of a task, and bytes behind a page table.
--
-- Here the memory is the physical one: a frame has its bytes at its address, and the pages of the
-- kernel are their own frames. An access to a page that is not present is a page fault, whose routine
-- never returns: `none`.
pub mod Answers
pub mod Fork
pub mod Threads
pub mod Exit
mod Tests
use so2_project.Common.{
  ℕ, ◌+◌, ◌-◌, ◌*◌, ◌/◌, ◌%◌, ◌^◌, ℤ, pos, pos_part, neg_part, ◌+ℤ◌, Option, none, some, Bool, ltb,
  leb, ◌&&◌, if◌then◌else◌, update,
}
use so2_project.Address.{total_pages, page_size}
use so2_project.Links.{Store}
use so2_project.Frames.{PhysMem}
use so2_project.Paging.{PageTable, get_frame}
use so2_project.Utils.{Memory, copy_data}
use so2_project.Kernel.{
  Kernel, list_of, thread_child_list_of, thread_child_anchor_of, memoria_of, set_task,
}
use so2_project.Boot.{get_pt}
use so2_project.Regions.{is_present}

-- An answer, with the kernel and the memory; `none` stands for a page fault in the kernel.
abbrev pub Outcome : Type 0
Outcome = Option (ℤ × Kernel × Memory)

-- The list heads of the task structure `from`, copied to the structure `to`.
abbrev pub copy_heads : Store → (from to : ℕ) → Store
copy_heads s from to =
    update
      (update
        (update (update s (list_of to) (s (list_of from))) (thread_child_list_of to)
          (s (thread_child_list_of from)))
        (thread_child_anchor_of to) (s (thread_child_anchor_of from)))
      (memoria_of to) (s (memoria_of from))

-- `copy_data(current(), t, sizeof(union task_union))`: the structure and its list heads; the stack,
-- which is in the same page, is in the memory.
abbrev pub copy_union : Kernel → ℕ → Kernel
copy_union k t = record (set_task k t (k.tasks k.current)) {
  links = copy_heads k.links k.current t;
}

abbrev pub copy_stack : Memory → (from to : ℕ) → Memory
copy_stack ram from to = copy_data ram from to (pos page_size)

-- The table of the task `t`, and the map of frames.
abbrev pub tables_of : Kernel → ℕ → PageTable × PhysMem
tables_of k t = (k.pagusr_table (get_pt k t), k.phys_mem)

abbrev pub set_tables_of : Kernel → ℕ → PageTable × PhysMem → Kernel
set_tables_of k t (pt, mem) = record k {
  pagusr_table = update k.pagusr_table (get_pt k t) pt;
  phys_mem = mem;
}

-- Whether an access to a page goes through: the directory leads to one table, of 1024 pages.
abbrev pub is_mapped : PageTable → ℕ → Bool
is_mapped pt page = ltb page total_pages && is_present pt page

-- The physical address of a logical one.
abbrev pub translate : PageTable → ℕ → ℕ
translate pt a = get_frame pt (a / page_size) * page_size + a % page_size

-- The word of an int.
abbrev pub word_of : ℤ → ℕ
word_of c = (pos_part c + (2 ^ 32 - neg_part c % 2 ^ 32)) % 2 ^ 32

-- `(register_ebp - (int)current()) + (int)t`, over words
abbrev pub move_ebp : (ebp from to : ℕ) → ℕ
move_ebp ebp from to = (ebp + (2 ^ 32 - from % 2 ^ 32) + to) % 2 ^ 32

-- `register_esp -= sizeof(DWord)`, over words
abbrev pub push : ℕ → ℕ
push esp = (esp + (2 ^ 32 - 4)) % 2 ^ 32

-- `PID=++global_PID`
abbrev pub number_task : Kernel → ℕ → Kernel
number_task k t =
    let k₁ = record k { global_pid = k.global_pid +ℤ pos 1 } in
    set_task k₁ t (record (k₁.tasks t) { pid = k₁.global_pid })
