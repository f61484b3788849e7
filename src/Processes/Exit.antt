-- ===== src/Processes/Exit.antt =====
-- sys_exit and terminate_thread of sys.c.
pub mod Queues
pub mod Stuck
use so2_project.Common.{
  ℕ, zero, suc, ◌+◌, ◌-◌, ◌%◌, ℤ, pos_part, negsuc, ◌==ℤ◌, Option, none, some, Bool, true, false,
  not, ◌==◌, if◌then◌else◌,
}
use so2_project.Address.{num_pag_data, pag_log_init_data}
use so2_project.Links.{list_first}
use so2_project.Kernel.{
  Kernel, freequeue, list_of, thread_child_list_of, thread_child_anchor_of, set_task,
  list_head_to_task_struct,
}
use so2_project.Boot.{init_head, add_tail}
use so2_project.Sched.{sched_next_rr}
use so2_project.Regions.{release_range}
use so2_project.Processes.{tables_of, set_tables_of}

-- `free_frame(get_frame(PT, base+i)); del_ss_pag(PT, base+i);` for `n` pages, in the table of `t`
abbrev pub release_pages : Kernel → (t base n : ℕ) → Kernel
release_pages k t base n = set_tables_of k t (release_range base n (tables_of k t))

-- The task structure goes to the end of freequeue, and has no number any more.
abbrev pub retire : Kernel → ℕ → Kernel
retire k t =
    let k₁ = add_tail k (list_of t) freequeue in
    set_task k₁ t (record (k₁.tasks t) { pid = negsuc 0 })

unfoldable pub terminate_thread : Kernel → ℕ → Kernel
terminate_thread k t =
    retire
      (release_pages k t (k.tasks t).thread_user_stack_base_page
        (pos_part (k.tasks t).thread_user_stack_num_page))
      t

-- The body of the loop over the threads, at the list entry `e`.
unfoldable pub end_thread : Kernel → ℕ → Kernel
unfolding terminate_thread
end_thread k e =
    let t = list_head_to_task_struct e in
    init_head (terminate_thread k t) (thread_child_anchor_of t)

-- `list_for_each(e, head)`; `none` means that the rounds ran out.
unfoldable pub end_threads : ℕ → (head e : ℕ) → Kernel → Option Kernel
end_threads zero head e k = none
end_threads (suc rounds) head e k =
    let k' = end_thread k e in
    let rest = end_threads rounds head (k'.links e).next k' in if e == head then some k else rest

-- The end of sys_exit for a process.
unfoldable pub leave : Kernel → Kernel
leave k =
    let k₁ = init_head k (thread_child_list_of k.current) in sched_next_rr (retire k₁ k₁.current)

abbrev pub then_leave : Option Kernel → Option Kernel
then_leave none = none
then_leave (some k) = some (leave k)

-- sys_exit, with at most so many rounds of the loop over the threads.
unfoldable pub sys_exit : (rounds : ℕ) → Kernel → Option Kernel
sys_exit rounds k =
    let cur = k.tasks k.current in
    let head = thread_child_list_of k.current in
    let k₁ = release_pages k k.current pag_log_init_data num_pag_data in
    if not (cur.master_thread ==ℤ cur.pid)
    then some (sched_next_rr (terminate_thread k k.current))
    else if cur.has_threads
    then then_leave (end_threads rounds head (list_first k₁.links head) k₁)
    else some (leave k₁)
