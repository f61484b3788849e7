-- ===== src/Sched/Quantum.antt =====
-- schedule, which the clock calls: a quantum is used up tick by tick.
use so2_project.Common.{
  ℕ, zero, suc, ◌≡◌, refl, sym, ap, true, false, List, [], ◌∷◌, ◌++◌, arith, ℤ, pos,
}
use mathlib.Core.Path.{subst}
use so2_project.Links.{list_empty}
use so2_project.Links.Ring.{list_empty-cons}
use so2_project.Links.Family.{Family}
use so2_project.Kernel.{Kernel, readyqueue, list_of, list_head_to_task_struct}
use so2_project.Sched.{update_sched_data_rr, needs_sched_rr, force_task_switch, schedule}
use so2_project.Sched.Inv.{IsSched, IsQueues-frame}
use so2_project.Sched.Switch.{ready-IsRing}
use so2_project.Sched.Turn.{after_switch, after_switch-queue, force_task_switch-cons}

module _ (k : Kernel) where
  -- The kernel with another remaining quantum.
  abbrev pub with_quantum : ℤ → Kernel
  with_quantum r = record k { remaining_quantum = r }

  tick_down :
      (n : ℕ) → k.remaining_quantum ≡ pos (suc n) → update_sched_data_rr k ≡ with_quantum (pos n)
  unfolding update_sched_data_rr
  tick_down n e = ap with_quantum (rw e (ground arith))

  not_needed :
      (n : ℕ) → needs_sched_rr (with_quantum (pos (suc n))) ≡ (false, with_quantum (pos (suc n)))
  unfolding needs_sched_rr
  not_needed n = ground arith

  schedule-waits :
      (n : ℕ) → k.remaining_quantum ≡ pos (suc (suc n)) → schedule k ≡ with_quantum (pos (suc n))
  unfolding schedule
  schedule-waits n e = rw (tick_down (suc n) e, not_needed n)

  -- The quantum is used up and a task is ready.
  schedule-switches :
      k.remaining_quantum ≡ pos 1
      → list_empty k.links readyqueue ≡ false
      → schedule k ≡ force_task_switch (with_quantum (pos 0))
  unfolding schedule needs_sched_rr force_task_switch
  schedule-switches e ready = rw (tick_down 0 e, ready)

  -- The quantum is used up and no task is ready: a new one begins.
  schedule-renews :
      k.remaining_quantum ≡ pos 1
      → list_empty k.links readyqueue ≡ true
      → schedule k ≡ with_quantum (k.tasks k.current).total_quantum
  unfolding schedule needs_sched_rr
  schedule-renews e ready = rw (tick_down 0 e, ready)

pub with_quantum-IsSched :
    {k : Kernel} {f : Family} (r : ℤ) → IsSched k f → IsSched (with_quantum k r) f
with_quantum-IsSched r v = record {
  queues = IsQueues-frame v.queues refl refl (λ t. refl);
  current_is_task = v.current_is_task;
  unqueued = v.unqueued;
  running = v.running;
}

unfoldable pub ticks : ℕ → Kernel → Kernel
ticks zero k = k
ticks (suc n) k = ticks n (schedule k)

-- When the invariant of the scheduler holds, a task that has `n + 1` ticks left, while others are
-- ready, runs for `n` calls of schedule more,
-- during which nothing but the remaining quantum changes; the next call puts it at the end of the
-- ready queue and makes the first ready task run.
pub schedule_quantum :
    (n : ℕ) (e : ℕ) (r : List ℕ) {k : Kernel} {f : Family}
    → IsSched k f
    → f.queue readyqueue ≡ e ∷ r
    → k.remaining_quantum ≡ pos (suc n)
    → (ticks n k ≡ with_quantum k (pos 1))
      × ((ticks (suc n) k).current ≡ list_head_to_task_struct e)
      × IsSched (ticks (suc n) k) (after_switch k f e)
      × ((after_switch k f e).queue readyqueue ≡ r ++ (list_of k.current ∷ []))
unfolding ticks
schedule_quantum zero e r {k} {f} v ready q =
    let ring = ready-IsRing k f v.queues (e ∷ r) ready in
    let s = force_task_switch-cons e r (with_quantum-IsSched (pos 0) v) ready in
    (
      sym (ap (with_quantum k) (sym q)),
      rw (schedule-switches k q (list_empty-cons ring)) s.1,
      rw (schedule-switches k q (list_empty-cons ring)) s.0,
      after_switch-queue e r v ready,
    )
schedule_quantum (suc n) e r {k} {f} v ready q =
    subst
      (λ k'.
        (ticks n k' ≡ with_quantum k (pos 1))
        × ((ticks (suc n) k').current ≡ list_head_to_task_struct e)
        × IsSched (ticks (suc n) k') (after_switch k f e)
        × ((after_switch k f e).queue readyqueue ≡ r ++ (list_of k.current ∷ [])))
      (sym (schedule-waits k n q))
      (schedule_quantum n e r (with_quantum-IsSched (pos (suc n)) v) ready refl)
