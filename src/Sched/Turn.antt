-- ===== src/Sched/Turn.antt =====
-- Taking turns: force_task_switch and schedule, and who runs after how many of them.
use so2_project.Common.{
  ℕ, zero, suc, ◌+◌, ◌≡◌, refl, ap, ◌∙◌, inl, List, [], ◌∷◌, ◌++◌, arith, length, ==-self, remove,
}
use mathlib.Core.Path.{subst}
use mathlib.Core.List.{append_assoc}
use so2_project.Links.Family.{Family, enqueue, dequeue}
use so2_project.Kernel.{Kernel, readyqueue, list_of, list_head_to_task_struct}
use so2_project.Sched.{sched_next_rr, update_process_state_rr, force_task_switch}
use so2_project.Sched.Inv.{IsSched, next_on, next_task}
use so2_project.Sched.Switch.{running-enqueue, sched_next_rr-IsSched, update_process_state_rr-Moved}

-- The running task goes to the end of the ready queue.
abbrev pub requeued : Kernel → Family → Family
requeued k f = enqueue f (list_of k.current) readyqueue

-- Then the entry `e` leaves it.
abbrev pub after_switch : Kernel → Family → ℕ → Family
after_switch k f e = dequeue (requeued k f) e readyqueue

-- What force_task_switch does with the queues.
pub force_task_switch-IsSched :
    {k : Kernel} {f : Family}
    → IsSched k f
    → IsSched (force_task_switch k) (next_task k.idle_task (requeued k f)).1
      × ((force_task_switch k).current ≡ (next_task k.idle_task (requeued k f)).0)
      × ((force_task_switch k).idle_task ≡ k.idle_task)
unfolding force_task_switch
force_task_switch-IsSched {k} {f} v =
    let m = update_process_state_rr-Moved k k.current readyqueue (omega arith) in
    let q = running-enqueue readyqueue v (inl refl) in
    let s = sched_next_rr-IsSched q in
    subst
      (λ i.
        IsSched (sched_next_rr (update_process_state_rr k k.current readyqueue))
          (next_task i (requeued k f)).1
        × ((sched_next_rr (update_process_state_rr k k.current readyqueue)).current
            ≡ (next_task i (requeued k f)).0)
        × ((sched_next_rr (update_process_state_rr k k.current readyqueue)).idle_task ≡ i))
      m.idle s

-- The first of the ready tasks runs next, and the running task waits behind the others.
module _ {k : Kernel} {f : Family} (e : ℕ) (r : List ℕ) (v : IsSched k f)
    (ready : f.queue readyqueue ≡ e ∷ r) where
  requeued-queue : (requeued k f).queue readyqueue ≡ e ∷ (r ++ (list_of k.current ∷ []))
  requeued-queue = ap (λ q. q ++ (list_of k.current ∷ [])) ready

  pub after_switch-queue : (after_switch k f e).queue readyqueue ≡ r ++ (list_of k.current ∷ [])
  unfolding remove
  after_switch-queue = ap (remove e) requeued-queue ∙ rw (==-self e) refl

  pub force_task_switch-cons :
      IsSched (force_task_switch k) (after_switch k f e)
      × ((force_task_switch k).current ≡ list_head_to_task_struct e)
  force_task_switch-cons =
      let s = force_task_switch-IsSched v in
      let n : next_task k.idle_task (requeued k f)
          ≡ (list_head_to_task_struct e, dequeue (requeued k f) e readyqueue) =
        ap (next_on k.idle_task (requeued k f)) requeued-queue in
      (
        subst (λ (p : ℕ × Family). IsSched (force_task_switch k) p.1) n s.0,
        s.1 ∙ ap (λ (p : ℕ × Family). p.0) n,
      )

unfoldable pub yields : ℕ → Kernel → Kernel
yields zero k = k
yields (suc n) k = yields n (force_task_switch k)

-- No ready task waits for ever: when the invariant of the scheduler holds, the task that stands behind
-- `xs` in the ready queue runs after one call of force_task_switch more than `xs` has entries, if each
-- task that runs calls it in its turn and nothing else happens.
pub yields_turn :
    (xs : List ℕ) (e : ℕ) (ys : List ℕ) {k : Kernel} {f : Family}
    → IsSched k f
    → f.queue readyqueue ≡ xs ++ (e ∷ ys)
    → (yields (length xs + 1) k).current ≡ list_head_to_task_struct e
unfolding yields
yields_turn [] e ys {k} {f} v ready = (force_task_switch-cons e ys v ready).1
yields_turn (x ∷ xs) e ys {k} {f} v ready =
    ap (λ n. (yields n k).current) shift
    ∙ yields_turn xs e (ys ++ (list_of k.current ∷ []))
        (force_task_switch-cons x (xs ++ (e ∷ ys)) v ready).0
        (after_switch-queue x (xs ++ (e ∷ ys)) v ready
          ∙ append_assoc xs (e ∷ ys) (list_of k.current ∷ []))
  where
    shift : suc (length xs) + 1 ≡ suc (length xs + 1)
    shift = omega arith
