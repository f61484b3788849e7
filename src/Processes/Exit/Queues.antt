-- ===== src/Processes/Exit/Queues.antt =====
-- sys_exit and the queues: the task structure is free, its pages are gone, and another task runs.
use so2_project.Common.{
  ℕ, ◌+◌, ◌≡◌, refl, ap, fun_ext, ◌∙◌, ◌≢◌, negsuc, pos_part, ◌==ℤ◌, Option, none, some, true,
  false, [], arith, ltb, leb, ◌&&◌, if◌then◌else◌,
}
use mathlib.Core.Path.{subst}
use so2_project.Links.{Store, init_list_head}
use so2_project.Links.Ring.{IsRing}
use so2_project.Links.Family.{Family}
use so2_project.Paging.{zero_entry}
use so2_project.Kernel.{Kernel, Task, thread_child_list_of}
use so2_project.Boot.{get_pt, init_head}
use so2_project.Sched.{sched_next_rr, pick_next, task_switch}
use so2_project.Sched.Inv.{IsQueues, IsSched, IsQueues-frame, next_task}
use so2_project.Sched.Switch.{sched_next_rr-IsSched}
use so2_project.Sched.Aside.{give_back-IsQueues}
use so2_project.Regions.Pages.{release_range-pages}
use so2_project.Interrupts.Wakeup.{IsSched-frame}
use so2_project.Processes.{tables_of}
use so2_project.Processes.Answers.{returned}
use so2_project.Processes.Exit.{release_pages, retire, terminate_thread, leave, sys_exit}

-- sched_next_rr changes no number and no table.
sched_next_rr-kept :
    (k : Kernel)
    → ((sched_next_rr k).pagusr_table ≡ k.pagusr_table)
      × ((u : ℕ) → ((sched_next_rr k).tasks u).pid ≡ (k.tasks u).pid)
unfolding sched_next_rr pick_next task_switch
sched_next_rr-kept k = (ground arith, λ u. ground arith)

-- What is left: another task runs, `n` pages from `base` on are not mapped any more and the others are as they
-- were, and the task structure has no number and is the last free one.
abbrev pub Exited : Kernel → Family → (base n : ℕ) → Option Kernel → Type 0
Exited k f base n none = ⊥
Exited k f base n (some k') =
    let next = next_task k.idle_task (returned f k.current) in
    IsSched k' next.1
    × (k'.current ≡ next.0)
    × ((k'.tasks k.current).pid ≡ negsuc 0)
    × ((p : ℕ)
        → k'.pagusr_table (get_pt k k.current) p ≡ (
            if leb base p && ltb p (base + n)
            then zero_entry
            else k.pagusr_table (get_pt k k.current) p))

-- INIT_LIST_HEAD on the head of an empty list changes nothing.
init_list_head-lone : (s : Store) (h : ℕ) → IsRing s h [] → init_list_head s h ≡ s
unfolding init_list_head
init_list_head-lone s h r = let chain = r.chain in fun_ext λ a. ground (arith, chain)

lone-IsSched :
    {k : Kernel} {f : Family} (h : ℕ)
    → IsSched k f
    → f.owner h ≡ some h
    → f.queue h ≡ []
    → IsSched (init_head k h) f
lone-IsSched {k} {f} h v head empty =
    IsSched-frame v
      (init_list_head-lone k.links h (subst (IsRing k.links h) empty (v.queues.family.ring h head)))
      refl refl (λ u. refl)

module _ {k : Kernel} {f : Family} (v : IsSched k f) (not_idle : k.current ≢ k.idle_task) where
  retire-IsQueues : IsQueues (retire k k.current) (returned f k.current)
  retire-IsQueues =
      IsQueues-frame (give_back-IsQueues k.current v.queues v.current_is_task v.unqueued not_idle)
        refl refl (λ u. ground arith)

  -- The task that runs next, once the running one has given back its task structure.
  retire-next :
      let k' = sched_next_rr (retire k k.current) in
      let next = next_task k.idle_task (returned f k.current) in
      IsSched k' next.1
      × (k'.current ≡ next.0)
      × ((k'.tasks k.current).pid ≡ negsuc 0)
      × (k'.pagusr_table ≡ k.pagusr_table)
  retire-next =
      let n = sched_next_rr-IsSched retire-IsQueues in
      let (tables, pid) = sched_next_rr-kept (retire k k.current) in
      (n.0, n.1, pid k.current ∙ ground arith, tables)

-- The pages of the running process that are released.
release_pages-lem :
    (k : Kernel) (base n p : ℕ)
    → (release_pages k k.current base n).pagusr_table (get_pt k k.current) p ≡ (
        if leb base p && ltb p (base + n)
        then zero_entry
        else k.pagusr_table (get_pt k k.current) p)
release_pages-lem k base n p = ground (arith, release_range-pages base n (tables_of k k.current) p)

module _ {k : Kernel} {f : Family} (v : IsSched k f) (not_idle : k.current ≢ k.idle_task)
    (base n : ℕ) where
  released-IsSched : IsSched (release_pages k k.current base n) f
  released-IsSched = IsSched-frame v refl refl refl (λ u. refl)

  thread-Exited :
      Exited k f base n (some (sched_next_rr (retire (release_pages k k.current base n) k.current)))
  thread-Exited =
      let (sched, cur, pid, tables) = retire-next released-IsSched not_idle in
      (
        sched,
        cur,
        pid,
        λ p. ap (λ ts. ts (get_pt k k.current) p) tables ∙ release_pages-lem k base n p,
      )

  process-Exited :
      f.owner (thread_child_list_of k.current) ≡ some (thread_child_list_of k.current)
      → f.queue (thread_child_list_of k.current) ≡ []
      → Exited k f base n (some (leave (release_pages k k.current base n)))
  unfolding leave
  process-Exited head empty =
      let (sched, cur, pid, tables) =
        retire-next (lone-IsSched (thread_child_list_of k.current) released-IsSched head empty)
          not_idle in
      (
        sched,
        cur,
        pid,
        λ p. ap (λ ts. ts (get_pt k k.current) p) tables ∙ release_pages-lem k base n p,
      )

-- The pages that sys_exit gives back: the data of a process, and the stack of a thread.
abbrev pub exit_base : Task → ℕ
exit_base t = if t.master_thread ==ℤ t.pid then 264 else t.thread_user_stack_base_page

abbrev pub exit_size : Task → ℕ
exit_size t = if t.master_thread ==ℤ t.pid then 20 else pos_part t.thread_user_stack_num_page

-- A thread, or a process whose list of threads is empty.
pub data MayExit (k : Kernel) (f : Family) : Type 0 where
  thread : ((k.tasks k.current).master_thread ==ℤ (k.tasks k.current).pid) ≡ false → MayExit k f
  process :
      ((k.tasks k.current).master_thread ==ℤ (k.tasks k.current).pid) ≡ true
      → (k.tasks k.current).has_threads ≡ false
      → f.owner (thread_child_list_of k.current) ≡ some (thread_child_list_of k.current)
      → f.queue (thread_child_list_of k.current) ≡ []
      → MayExit k f

-- When the invariant of the scheduler holds and the caller, which is not the idle task, is a thread or else a
-- process that is not marked as having threads and has an empty list of threads, sys_exit keeps the invariant
-- after any number of rounds of its loop, and the first ready task, or else the idle task, runs. The
-- caller's task structure is the last free one and has the number -1; the 20 data pages of a process, or
-- the stack pages of a thread, are not mapped any more, and the other pages of the address space are
-- as they were.
pub sys_exit-IsSched :
    {k : Kernel} {f : Family}
    → IsSched k f
    → k.current ≢ k.idle_task
    → MayExit k f
    → (rounds : ℕ)
    → Exited k f (exit_base (k.tasks k.current)) (exit_size (k.tasks k.current)) (sys_exit rounds k)
unfolding sys_exit terminate_thread
sys_exit-IsSched v not_idle (process own alone head empty) rounds =
    rw (own, alone) (process-Exited v not_idle 264 20 head empty)
sys_exit-IsSched {k} v not_idle (thread other) rounds =
    let cur = k.tasks k.current in
    rw other (
      thread-Exited v not_idle cur.thread_user_stack_base_page
        (pos_part cur.thread_user_stack_num_page))
