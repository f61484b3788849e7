-- ===== src/Sched/Wake.antt =====
-- A task that nothing queues joins the ready queue, as at the end of sys_fork and of
-- sys_threadCreateWithStack; a free task is taken, as at their start.
use so2_project.Common.{ℕ, ◌≡◌, refl, sym, ap, ◌∙◌, ◌≢◌, inl, none, some, List, ◌∷◌, arith, All}
use mathlib.Core.Path.{subst}
use so2_project.Links.Ring.{IsRing, list_first-cons}
use so2_project.Links.Family.{Family, enqueue, dequeue}
use so2_project.Kernel.{Kernel, st_ready, freequeue, readyqueue, list_of, list_head_to_task_struct}
use so2_project.Boot.{take_free}
use so2_project.Sched.{set_state, link}
use so2_project.Sched.Inv.{IsTask, IsSched, list_of-task, IsTask-list_head_to_task_struct}
use so2_project.Sched.Switch.{enqueue-IsQueues, dequeue-IsQueues}

-- `state = ST_READY; list_add_tail(&list, &readyqueue)`
abbrev pub make_ready : Kernel → ℕ → Kernel
make_ready k t = link (set_state k t st_ready) t readyqueue

-- A task that is in no queue and does not run becomes ready, behind those that are.
pub make_ready-IsSched :
    {k : Kernel} {f : Family} (t : ℕ)
    → IsSched k f
    → IsTask t
    → t ≢ k.current
    → f.owner (list_of t) ≡ none
    → IsSched (make_ready k t) (enqueue f (list_of t) readyqueue)
make_ready-IsSched {k} {f} t v task other free = record {
  queues =
      enqueue-IsQueues v.queues t readyqueue (inl refl) task free refl (λ u. ground arith) refl;
  current_is_task = v.current_is_task;
  unqueued = ground (arith, v.unqueued);
  running = ground (arith, v.running);
}

-- When a task is free, taking the first entry off freequeue keeps the invariant of the scheduler; the
-- task that it stands in is in no queue any more and is not the running task.
pub take_free-IsSched :
    {k : Kernel} {f : Family} (e : ℕ) (r : List ℕ)
    → IsSched k f
    → f.queue freequeue ≡ e ∷ r
    → ((take_free k).0 ≡ list_head_to_task_struct e)
      × IsSched (take_free k).1 (dequeue f e freequeue)
      × IsTask (take_free k).0
      × ((take_free k).0 ≢ k.current)
      × ((dequeue f e freequeue).owner (list_of (take_free k).0) ≡ none)
take_free-IsSched {k} {f} e r v eq =
    let ring =
      subst (IsRing k.links freequeue) eq (v.queues.family.ring freequeue v.queues.free_head) in
    let ne : e ≢ freequeue = λ h. ring.outside.0 (sym h) in
    let all =
      subst (All (λ a. f.owner a ≡ some freequeue)) eq
        (v.queues.family.owned freequeue v.queues.free_head) in
    let own : f.owner e ≡ some freequeue = all.0 in
    let entry = list_of-task e (v.queues.free_entry_of e own ne) in
    rw (list_first-cons ring) (
      refl,
      record {
        queues =
            dequeue-IsQueues v.queues e freequeue v.queues.free_head own ne
              (λ h. ne (ground arith));
        current_is_task = v.current_is_task;
        unqueued = ground (arith, v.unqueued);
        running = v.running;
      },
      IsTask-list_head_to_task_struct e,
      (λ h.
          let u : f.owner e ≡ none =
            sym (ap f.owner entry) ∙ ap (λ x. f.owner (list_of x)) h ∙ v.unqueued in
          absurd (ground arith)),
      rw entry (ground arith),
    )
