-- ===== src/Boot.antt =====
-- How the kernel starts: init_freequeue, init_freesem, init_sched, init_idle and init_task1 of sched.c,
-- init_mm of mm.c, and the part of main of system.c that calls them.
pub mod Queues
pub mod Start
pub mod Main
pub mod Image
pub mod Tables
pub mod Loaded
mod Tests
use so2_project.Common.{
  ℕ, ◌+◌, ◌-◌, ◌*◌, ◌/◌, ◌%◌, ◌^◌, ℤ, pos, negsuc, ◌==ℤ◌, Bool, true, false, ◌==◌, if◌then◌else◌,
  update, for_range,
}
use so2_project.Address.{page_size, nr_tasks, pagusr_page}
use so2_project.Links.{list_add_tail, list_del, list_first, init_list_head}
use so2_project.Buffer.{init_circular_buffer}
use so2_project.Stats.{init_stats}
use so2_project.Frames.{init_frames}
use so2_project.Paging.{PageTable, init_table_pages, init_dir_pages, set_user_pages}
use so2_project.Kernel.{
  Kernel, Task, TaskState, st_run, freequeue, readyqueue, blocked, get_key_blocked, freesem,
  list_of, thread_child_list_of, memoria_of, task_address, sem_address, sem_blocked_of, sem_sems_of,
  set_task, get_ticks, list_head_to_task_struct, print,
}
use so2_project.Messages.{kernel_loaded, entering_user_mode}
use so2_project.Sched.{default_quantum}

-- `((int)t-(int)task)/sizeof(union task_union)`
unfoldable pub allocate_dir : Kernel → ℕ → Kernel
allocate_dir k t =
    set_task k t (record (k.tasks t) { dir_pages_base = (t - task_address 0) / page_size })

abbrev pub get_dir : Kernel → ℕ → ℕ
get_dir k t = (k.tasks t).dir_pages_base

-- get_PT: the index in `pagusr_table` of the table that the directory of the task leads to.
abbrev pub get_pt : Kernel → ℕ → ℕ
get_pt k t = (k.dir_pages (get_dir k t)).pbase_addr - pagusr_page

abbrev pub init_head : Kernel → ℕ → Kernel
init_head k h = record k { links = init_list_head k.links h }

abbrev pub add_tail : Kernel → (new head : ℕ) → Kernel
add_tail k new head = record k { links = list_add_tail k.links new head }

-- init_stats on the statistics of a task, with its two calls of get_ticks
abbrev pub reset_stats : Kernel → ℕ → Kernel
reset_stats k t =
    record (set_task k t
      (record (k.tasks t) { p_stats = init_stats (k.clock k.reads) (k.clock (k.reads + 1)) })) {
        reads = k.reads + 2;
      }

unfoldable pub init_freequeue : Kernel → Kernel
init_freequeue k =
    for_range nr_tasks 0
      (λ i k'.
        add_tail
          (set_task k' (task_address i) (record (k'.tasks (task_address i)) { pid = negsuc 0 }))
          (list_of (task_address i)) freequeue)
      (init_head k freequeue)

abbrev pub num_sem : ℕ
num_sem = 10

unfoldable pub init_freesem : Kernel → Kernel
init_freesem k =
    for_range num_sem 0 (λ i k'. add_tail k' (sem_sems_of (sem_address i)) freesem)
      (init_head k freesem)

unfoldable pub init_sched : Kernel → Kernel
unfolding init_freequeue init_freesem
init_sched k =
    let k₁ = init_freequeue k in
    let k₂ = init_head k₁ readyqueue in
    let k₃ = init_head k₂ blocked in let k₄ = init_head k₃ get_key_blocked in init_freesem k₄

-- The first free task structure, taken off the queue.
abbrev pub take_free : Kernel → ℕ × Kernel
take_free k =
    let l = list_first k.links freequeue in
    (list_head_to_task_struct l, record k { links = list_del k.links l })

-- The end of init_idle, which asks about the task that runs.
unfoldable pub clear_has_threads : Kernel → Kernel
clear_has_threads k =
    let cur = k.tasks k.current in
    if cur.master_thread ==ℤ cur.pid
    then set_task k k.current (record cur { has_threads = false })
    else k

-- The words that init_idle puts on the stack of the idle task, the address of cpu_idle among them,
-- are left out.
unfoldable pub fill_idle : Kernel → ℕ → Kernel
unfolding allocate_dir
fill_idle k c =
    let k₁ =
      init_head (set_task k c (record (k.tasks c) { pid = pos 0; master_thread = pos 0 }))
        (memoria_of c) in
    let k₂ = set_task k₁ c (record (k₁.tasks c) { total_quantum = default_quantum }) in
    let k₃ = allocate_dir (reset_stats k₂ c) c in
    set_task k₃ c (record (k₃.tasks c) { register_esp = c + page_size - 8 })

unfoldable pub init_idle : Kernel → Kernel
unfolding fill_idle clear_has_threads
init_idle k =
    let (c, k₁) = take_free k in record (clear_has_threads (fill_idle k₁ c)) { idle_task = c }

-- set_user_pages on the tables of the kernel
abbrev pub user_pages : Kernel → ℕ → Kernel
user_pages k t =
    let (pt, mem) = set_user_pages (k.pagusr_table (get_pt k t), k.phys_mem) in
    record k { pagusr_table = update k.pagusr_table (get_pt k t) pt; phys_mem = mem }

unfoldable pub init_task1 : Kernel → Kernel
unfolding allocate_dir
init_task1 k =
    let (c, k₁) = take_free k in
    let k₂ =
      set_task k₁ c
        (record (k₁.tasks c) { pid = pos 1; master_thread = pos 1; master_thread_address = c }) in
    let k₃ = init_head k₂ (memoria_of c) in
    let k₄ = set_task k₃ c (record (k₃.tasks c) {
      total_quantum = default_quantum;
      state = st_run;
      pending_unblocks = pos 0;
    }) in
    let k₅ = record k₄ { remaining_quantum = (k₄.tasks c).total_quantum } in
    let k₆ = user_pages (allocate_dir (reset_stats k₅ c) c) c in
    let k₇ = set_task (record k₆ { esp0 = c }) c (record (k₆.tasks c) { has_threads = false }) in
    let k₈ = init_head k₇ (thread_child_list_of c) in record k₈ { cr3 = get_dir k₈ c }

-- Paging is switched on by the last two lines of init_mm; only the register with the directory is kept.
unfoldable pub init_mm : Kernel → Kernel
unfolding allocate_dir
init_mm k =
    let k₁ = record k { pagusr_table = init_table_pages k.pagusr_table } in
    let k₂ = record k₁ { phys_mem = init_frames k₁.phys_mem } in
    let k₃ = record k₂ { dir_pages = init_dir_pages k₂.dir_pages } in
    let k₄ = allocate_dir k₃ (task_address 0) in record k₄ { cr3 = get_dir k₄ (task_address 0) }

-- The calls of main. When the first process enters the kernel, it does so on the stack of `esp0`.
unfoldable pub boot : Kernel → Kernel
unfolding init_mm init_sched init_idle init_task1
boot k =
    let k₁ = init_task1 (init_idle (init_sched (init_mm (print k kernel_loaded)))) in
    print
      (record k₁ { keyboard_buffer = init_circular_buffer k₁.keyboard_buffer; current = k₁.esp0 })
      entering_user_mode
