-- ===== src/Syscalls/Block.antt =====
-- The calls by which a process gives up the processor.
use so2_project.Common.{
  ℕ, ◌≡◌, refl, ◌≢◌, inl, inr, ℤ, pos, ltb_ℤ, ◌==ℤ◌, Bool-cases, arith, if◌then◌else◌,
}
use mathlib.Core.Path.{subst}
use so2_project.Links.Family.{Family, enqueue}
use so2_project.Kernel.{Kernel, blocked, list_of}
use so2_project.Sched.{sched_next_rr, update_process_state_rr}
use so2_project.Sched.Inv.{IsSched, next_task}
use so2_project.Sched.Switch.{
  MayQueue, update_process_state_rr-Moved, running-enqueue, sched_next_rr-IsSched,
}
use so2_project.Interrupts.Wakeup.{IsSched-frame}
use so2_project.Syscalls.{sys_block}

-- The running process, which is not the idle task, goes to the end of `dst`, and the next one runs.
pub block-IsSched :
    {k : Kernel} {f : Family} (dst : ℕ)
    → IsSched k f
    → MayQueue k.idle_task k.current dst
    → let next = next_task k.idle_task (enqueue f (list_of k.current) dst) in
      IsSched (sched_next_rr (update_process_state_rr k k.current dst)) next.1
      × ((sched_next_rr (update_process_state_rr k k.current dst)).current ≡ next.0)
block-IsSched {k} {f} dst v which =
    let m = update_process_state_rr-Moved k k.current dst (ground arith) in
    let s = sched_next_rr-IsSched (running-enqueue dst v which) in
    subst
      (λ i.
        IsSched (sched_next_rr (update_process_state_rr k k.current dst))
          (next_task i (enqueue f (list_of k.current) dst)).1
        × ((sched_next_rr (update_process_state_rr k k.current dst)).current
            ≡ (next_task i (enqueue f (list_of k.current) dst)).0))
      m.idle (s.0, s.1)

-- What sys_block leaves when the process has `pending` unblocks.
abbrev pub Blocked : Kernel → Family → ℤ → ℤ × Kernel → Type 0
Blocked k f pending r =
    (r.0 ≡ pos 0)
    × IsSched r.1 (
        if pending ==ℤ pos 0
        then (next_task k.idle_task (enqueue f (list_of k.current) blocked)).1
        else f)
    × (r.1.current ≡ (
        if pending ==ℤ pos 0
        then (next_task k.idle_task (enqueue f (list_of k.current) blocked)).0
        else k.current))

-- When the invariant of the scheduler holds and the idle task does not run, sys_block returns 0 and keeps
-- the invariant. Without a pending unblock the caller goes to the end of `blocked` and the first ready
-- task, or else the idle task, runs; with one the caller goes on.
pub sys_block-IsSched :
    {k : Kernel} {f : Family}
    → IsSched k f
    → k.current ≢ k.idle_task
    → Blocked k f (k.tasks k.current).pending_unblocks (sys_block k)
unfolding sys_block
sys_block-IsSched {k} {f} v ne =
    let s = block-IsSched blocked v (inr (inl refl, ne)) in
    elim (Bool-cases ((k.tasks k.current).pending_unblocks ==ℤ pos 0)) [
      | inl waits ↦ rw waits (refl, s.0, s.1)
      | inr pending ↦
          rw pending (elim (Bool-cases (ltb_ℤ (pos 0) (k.tasks k.current).pending_unblocks)) [
            | inl more ↦ rw more (refl, IsSched-frame v refl refl refl (λ t. ground arith), refl)
            | inr less ↦ rw less (refl, v, refl)
          ])
    ]
