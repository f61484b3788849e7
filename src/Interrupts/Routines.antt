-- ===== src/Interrupts/Routines.antt =====
-- The whole routines of the keyboard and of the clock.
use so2_project.Common.{
  ℕ, ◌≡◌, refl, ℤ, pos, ◌-ℤ◌, ◌==ℤ◌, Bool, true, false, not, ◌&&◌, List, bit_and, if◌then◌else◌,
}
use so2_project.Links.{list_empty}
use so2_project.Links.Family.{Family}
use so2_project.Buffer.{circular_buffer_push}
use so2_project.Kernel.{Kernel, readyqueue}
use so2_project.Sched.{update_sched_data_rr, needs_sched_rr, force_task_switch, schedule}
use so2_project.Sched.Inv.{IsSched, next_task}
use so2_project.Sched.Turn.{requeued, force_task_switch-IsSched}
use so2_project.Sched.Quantum.{with_quantum, with_quantum-IsSched}
use so2_project.Interrupts.{char_at}
use so2_project.Interrupts.Wakeup.{reader_woken}

-- What a call with the given flag leaves.
abbrev Served : (ℕ → ℤ) → Kernel → Family → List ℕ → ℕ → Bool → Kernel → Type 0
Served beyond k f xs c flag k' =
    IsSched k' (if flag then reader_woken f xs else f)
    × (k'.current ≡ k.current)
    × (k'.make_flag ≡ not flag)
    × (k'.keyboard_buffer ≡ (
        if flag
        then (circular_buffer_push k.keyboard_buffer (char_at beyond (bit_and c 0x7f))).1
        else k.keyboard_buffer))

-- Whether schedule switches.
abbrev pub switches : Kernel → Bool
switches k = (k.remaining_quantum -ℤ pos 1 ==ℤ pos 0) && not (list_empty k.links readyqueue)

-- The rings after schedule, which takes turns if it switches.
abbrev pub scheduled : Kernel → Family → Family
scheduled k f = if switches k then (next_task k.idle_task (requeued k f)).1 else f

schedule-code :
    (k : Kernel) (used empty : Bool)
    → (k.remaining_quantum -ℤ pos 1 ==ℤ pos 0) ≡ used
    → list_empty k.links readyqueue ≡ empty
    → schedule k ≡ (
        if used && not empty
        then force_task_switch (with_quantum k (k.remaining_quantum -ℤ pos 1))
        else with_quantum k
            (if used then (k.tasks k.current).total_quantum else k.remaining_quantum -ℤ pos 1))
unfolding schedule needs_sched_rr update_sched_data_rr force_task_switch
schedule-code k true true a b = rw (a, b) refl
schedule-code k true false a b = rw (a, b) refl
schedule-code k false true a b = rw a refl
schedule-code k false false a b = rw a refl

schedule-by :
    {k : Kernel} {f : Family} (used empty : Bool)
    → IsSched k f
    → (k.remaining_quantum -ℤ pos 1 ==ℤ pos 0) ≡ used
    → list_empty k.links readyqueue ≡ empty
    → IsSched
        (schedule k)
        (if used && not empty then (next_task k.idle_task (requeued k f)).1 else f)
schedule-by {k} {f} true false v a b =
    rw (schedule-code k true false a b)
      (force_task_switch-IsSched (with_quantum-IsSched (k.remaining_quantum -ℤ pos 1) v)).0
schedule-by {k} {f} true true v a b = rw (schedule-code k true true a b) (with_quantum-IsSched _ v)
schedule-by {k} {f} false true v a b =
    rw (schedule-code k false true a b) (with_quantum-IsSched _ v)
schedule-by {k} {f} false false v a b =
    rw (schedule-code k false false a b) (with_quantum-IsSched _ v)

pub schedule-IsSched :
    {k : Kernel} {f : Family} → IsSched k f → IsSched (schedule k) (scheduled k f)
schedule-IsSched {k} {f} v =
    schedule-by (k.remaining_quantum -ℤ pos 1 ==ℤ pos 0) (list_empty k.links readyqueue) v refl refl
