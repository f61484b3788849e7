-- ===== src/Semaphores/Tests.antt =====
-- A wait and a signal at the first semaphore, with two other processes ready, and its creation.
use so2_project.Common.{ℕ, ◌≡◌, refl, pos, negsuc, true, none, arith, List, [], ◌∷◌, map}
use so2_project.Links.{init_list_head, list_add_tail}
use so2_project.Links.Family.{Family, enqueue}
use so2_project.Links.Family.Init.{new_head, enqueue_range}
use so2_project.Kernel.{Kernel, list_of, sem_address, sem_blocked_of, sem_sems_of}
use so2_project.Boot.Queues.{free_tasks, empty_queues, sched_family}
use so2_project.Boot.Start.{idle_family, boot_family}
use so2_project.Sched.Inv.{IsQueues, IsSched, IsQueues-frame}
use so2_project.Interrupts.Wakeup.{IsSched-frame}
use so2_project.Semaphores.{set_sem, sys_sem_create, sys_sem_wait, sys_sem_signal, sys_sem_destroy}
use so2_project.Semaphores.Waits.{IsOther, other-IsQueues, Waited, new_head-IsSched}
use so2_project.Semaphores.Counts.{
  IsCounted, Counted, Signalled, sys_sem_wait-Counted, sys_sem_signal-Signalled,
}
use so2_project.Semaphores.Lifetime.{
  IsFirst, Created, Destroyed, sys_sem_create-Created, sys_sem_destroy-sys_sem_create,
}
use so2_project.Samples.{two_family, two_more, two_more-IsSched, two_more-idle}

abbrev head : ℕ
head = sem_blocked_of (sem_address 0)

abbrev with_sem : Kernel
with_sem = record two_more { links = init_list_head two_more.links head }

head_unused : two_family.owner head ≡ none
unfolding boot_family idle_family sched_family empty_queues free_tasks enqueue_range
head_unused = refl

abbrev sem : ℕ
sem = sem_address 0

with_sem-IsSched : IsSched with_sem (new_head two_family head)
with_sem-IsSched = new_head-IsSched head two_more-IsSched.0 head_unused (omega arith)

head-IsOther : IsOther (new_head two_family head) head
head-IsOther = record {
  head = refl;
  not_free = omega arith;
  not_ready = omega arith;
  not_blocked = omega arith;
  not_keys = omega arith;
}

-- With the count 0, the running process has to wait.
abbrev at_zero : Kernel
at_zero = set_sem with_sem sem (record { count = pos 0; tid = pos 1 })

at_zero-IsCounted : IsCounted at_zero (new_head two_family head) sem
at_zero-IsCounted = record { head = refl; apart = omega arith; count = refl }

sys_sem_wait-Counted_example :
    Waited at_zero (new_head two_family head) head true (sys_sem_wait at_zero sem)
    × Counted at_zero (new_head two_family head) sem true (sys_sem_wait at_zero sem)
sys_sem_wait-Counted_example =
    sys_sem_wait-Counted sem (IsSched-frame with_sem-IsSched refl refl refl (λ t. refl))
      head-IsOther at_zero-IsCounted two_more-idle

-- With the count -1, one process is in the list.
abbrev one_waits : Kernel
one_waits =
    set_sem
      (record with_sem { links = list_add_tail with_sem.links (list_of with_sem.current) head }) sem
      (record { count = negsuc 0; tid = pos 1 })

abbrev waiting_family : Family
waiting_family = enqueue (new_head two_family head) (list_of with_sem.current) head

one_waits-IsQueues : IsQueues one_waits waiting_family
one_waits-IsQueues =
    IsQueues-frame (other-IsQueues head with_sem-IsSched head-IsOther two_more-idle) refl refl
      (λ t. refl)

one_waits-IsCounted : IsCounted one_waits waiting_family sem
one_waits-IsCounted = record { head = ground arith; apart = omega arith; count = refl }

sys_sem_signal-Signalled_example :
    Signalled one_waits waiting_family sem (sys_sem_signal one_waits sem)
sys_sem_signal-Signalled_example =
    sys_sem_signal-Signalled sem one_waits-IsQueues.family one_waits-IsQueues.ready_head
      one_waits-IsCounted

abbrev others : List ℕ
others = map (λ i. sem_sems_of (sem_address i)) (1 ∷ 2 ∷ 3 ∷ 4 ∷ 5 ∷ 6 ∷ 7 ∷ 8 ∷ 9 ∷ [])

sem-IsFirst : IsFirst two_family sem others
unfolding boot_family idle_family sched_family empty_queues free_tasks enqueue_range
sem-IsFirst = record { head = refl; queue = refl; unused = refl; place = omega arith }

sys_sem_create-Created_example :
    Created two_more two_family sem 3 others (sys_sem_create two_more (pos 3))
sys_sem_create-Created_example = sys_sem_create-Created sem others two_more-IsSched.0 sem-IsFirst 3

sys_sem_destroy-sys_sem_create_example :
    Destroyed two_family sem others (sys_sem_destroy (sys_sem_create two_more (pos 3)).1 sem)
sys_sem_destroy-sys_sem_create_example =
    sys_sem_destroy-sys_sem_create sem others two_more-IsSched.0 sem-IsFirst 3
