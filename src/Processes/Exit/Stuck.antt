-- ===== src/Processes/Exit/Stuck.antt =====
-- The loop over the threads of a process that ends.
use so2_project.Common.{ℕ, zero, suc, ◌%◌, ◌≡◌, refl, ap, ◌≢◌, none, true, arith, ==-ne, ◌==ℤ◌}
use so2_project.Links.{init_list_head, list_first}
use so2_project.Kernel.{
  Kernel, list_head_to_task_struct, thread_child_anchor_of, thread_child_list_of,
}
use so2_project.Processes.Exit.{end_thread, end_threads, then_leave, sys_exit}

-- The entry of a thread is made a list of its own, and the loop goes on from there.
end_thread-next : (k : Kernel) (e : ℕ) → e % 4096 ≡ 84 → ((end_thread k e).links e).next ≡ e
unfolding end_thread list_head_to_task_struct init_list_head
end_thread-next k e anchor =
    let same : thread_child_anchor_of (list_head_to_task_struct e) ≡ e = omega arith in
    ground (arith, same)

end_threads-stuck :
    (rounds head e : ℕ) (k : Kernel) → e % 4096 ≡ 84 → e ≢ head → end_threads rounds head e k ≡ none
unfolding end_threads
end_threads-stuck zero head e k anchor ne = refl
end_threads-stuck (suc rounds) head e k anchor ne =
    rw (==-ne e head ne, end_thread-next k e anchor)
      (end_threads-stuck rounds head e (end_thread k e) anchor ne)

-- sys_exit of a process that has threads never returns: when the process is its own master, is marked as having
-- threads and the first entry of its list of threads is the anchor of a task structure, the loop over
-- the threads is not at its end after any number of rounds.
pub sys_exit-stuck :
    (k : Kernel) (e : ℕ)
    → ((k.tasks k.current).master_thread ==ℤ (k.tasks k.current).pid) ≡ true
    → (k.tasks k.current).has_threads ≡ true
    → list_first k.links (thread_child_list_of k.current) ≡ e
    → e % 4096 ≡ 84
    → e ≢ thread_child_list_of k.current
    → (rounds : ℕ) → sys_exit rounds k ≡ none
unfolding sys_exit
sys_exit-stuck k e own threads first anchor ne rounds =
    rw (own, threads, first)
      (ap then_leave (end_threads-stuck rounds (thread_child_list_of k.current) e _ anchor ne))
