-- ===== src/Sched/Tests.antt =====
-- The theorems of the scheduler and of the start at a kernel with two ready tasks.
use so2_project.Common.{◌≡◌, refl, pos, [], ◌∷◌, map}
use so2_project.Kernel.{freequeue, readyqueue, list_of, task_address, list_head_to_task_struct}
use so2_project.Boot.{boot}
use so2_project.Boot.Start.{boot_family, boot-IsSched}
use so2_project.Sched.{sched_next_rr}
use so2_project.Sched.Inv.{IsSched, next_task}
use so2_project.Sched.Switch.{sched_next_rr-IsSched}
use so2_project.Sched.Turn.{yields, yields_turn, after_switch}
use so2_project.Sched.Quantum.{ticks, with_quantum, with_quantum-IsSched, schedule_quantum}
use so2_project.Samples.{zeros, two_family, two_more, two_more-IsSched, two_ready}

boot-IsSched_example :
    IsSched (boot zeros) boot_family
    × ((boot zeros).current ≡ task_address 1)
    × ((boot zeros).idle_task ≡ task_address 0)
    × (boot_family.queue readyqueue ≡ [])
    × (boot_family.queue freequeue
        ≡ map list_of (map task_address (2 ∷ 3 ∷ 4 ∷ 5 ∷ 6 ∷ 7 ∷ 8 ∷ 9 ∷ [])))
boot-IsSched_example = boot-IsSched zeros

sched_next_rr-IsSched_example :
    IsSched (sched_next_rr two_more) (next_task two_more.idle_task two_family).1
    × ((sched_next_rr two_more).current ≡ (next_task two_more.idle_task two_family).0)
    × ((sched_next_rr two_more).idle_task ≡ two_more.idle_task)
sched_next_rr-IsSched_example = sched_next_rr-IsSched two_more-IsSched.0.queues

yields_turn_example :
    (yields 2 two_more).current ≡ list_head_to_task_struct (list_of (task_address 3))
yields_turn_example =
    yields_turn (list_of (task_address 2) ∷ []) (list_of (task_address 3)) [] two_more-IsSched.0
      two_ready

schedule_quantum_example :
    (ticks 1 (with_quantum two_more (pos 2)) ≡ with_quantum two_more (pos 1))
    × ((ticks 2 (with_quantum two_more (pos 2))).current
        ≡ list_head_to_task_struct (list_of (task_address 2)))
    × IsSched
        (ticks 2 (with_quantum two_more (pos 2)))
        (after_switch (with_quantum two_more (pos 2)) two_family (list_of (task_address 2)))
    × ((after_switch (with_quantum two_more (pos 2)) two_family (list_of (task_address 2))).queue
          readyqueue
        ≡ list_of (task_address 3) ∷ (list_of two_more.current ∷ []))
schedule_quantum_example =
    schedule_quantum 1 (list_of (task_address 2)) (list_of (task_address 3) ∷ [])
      (with_quantum-IsSched (pos 2) two_more-IsSched.0) two_ready refl
