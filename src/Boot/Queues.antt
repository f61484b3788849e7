-- ===== src/Boot/Queues.antt =====
-- The rings that init_sched leaves, and those of the whole start.
use so2_project.Common.{ℕ, ◌<◌, ◌≡◌, refl, ◌∙◌, ◌≢◌, none, arith, for_range_inv}
use so2_project.Links.Family.{Family, IsFamily}
use so2_project.Links.Family.Init.{
  no_rings, new_head, enqueue_range, no_rings-IsFamily, init_list_head-IsFamily,
  enqueue_range-IsFamily, enqueue_range-other, enqueue_range-zero,
}
use so2_project.Kernel.{
  Kernel, freequeue, readyqueue, blocked, get_key_blocked, freesem, list_of, task_address,
  sem_address, sem_sems_of,
}
use so2_project.Boot.{init_freequeue, init_freesem, init_sched}

abbrev pub task_entry : ℕ → ℕ
task_entry i = list_of (task_address i)

abbrev pub sem_entry : ℕ → ℕ
sem_entry i = sem_sems_of (sem_address i)

-- The free tasks in a ring, three empty rings, and the free semaphores in a ring.
unfoldable pub free_tasks : Family
free_tasks = enqueue_range 10 task_entry freequeue (new_head no_rings freequeue)

unfoldable pub empty_queues : Family
empty_queues = new_head (new_head (new_head free_tasks readyqueue) blocked) get_key_blocked

unfoldable pub sched_family : Family
sched_family = enqueue_range 10 sem_entry freesem (new_head empty_queues freesem)

abbrev first_ring : Family
first_ring = new_head no_rings freequeue

abbrev sem_ring : Family
sem_ring = new_head empty_queues freesem

-- What the tasks leave of the other addresses.
free_tasks-other : (a : ℕ) → a < 4096 → a ≢ freequeue → free_tasks.owner a ≡ none
unfolding free_tasks
free_tasks-other a small ne =
    enqueue_range-other task_entry (λ x y e. omega arith) freequeue (λ x e. omega arith) first_ring
      10 a (λ x e. omega arith)
    ∙ ground arith

init_freequeue-IsFamily : (k : Kernel) → IsFamily (init_freequeue k).links free_tasks
unfolding init_freequeue free_tasks
init_freequeue-IsFamily k =
    for_range_inv
      (λ i (k' : Kernel). IsFamily k'.links (enqueue_range i task_entry freequeue first_ring)) _ 10
      0 10 _
      (λ i k' lo hi v.
        enqueue_range-IsFamily task_entry (λ a b e. omega arith) freequeue (λ a e. omega arith)
          first_ring i k'.links refl (ground arith) v)
      refl
      (rw (enqueue_range-zero task_entry freequeue first_ring)
        (init_list_head-IsFamily (no_rings-IsFamily k.links) freequeue refl))

sem_entry-unused : (i : ℕ) → i < 10 → sem_ring.owner (sem_entry i) ≡ none
unfolding empty_queues
sem_entry-unused i hi = ground (arith, free_tasks-other (sem_entry i))

empty_queues-freesem : empty_queues.owner freesem ≡ none
unfolding empty_queues
empty_queues-freesem = free_tasks-other freesem (omega arith) (omega arith)

init_freesem-IsFamily :
    (k : Kernel) → IsFamily k.links empty_queues → IsFamily (init_freesem k).links sched_family
unfolding init_freesem sched_family
init_freesem-IsFamily k w =
    for_range_inv
      (λ i (k' : Kernel). IsFamily k'.links (enqueue_range i sem_entry freesem sem_ring)) _ 10 0 10
      _
      (λ i k' lo hi v.
        enqueue_range-IsFamily sem_entry (λ a b e. omega arith) freesem (λ a e. omega arith)
          sem_ring i k'.links (ground arith) (sem_entry-unused i hi) v)
      refl
      (rw (enqueue_range-zero sem_entry freesem sem_ring)
        (init_list_head-IsFamily w freesem empty_queues-freesem))

pub init_sched-IsFamily : (k : Kernel) → IsFamily (init_sched k).links sched_family
unfolding init_sched empty_queues
init_sched-IsFamily k = init_freesem-IsFamily _ (
    init_list_head-IsFamily
      (init_list_head-IsFamily
        (init_list_head-IsFamily (init_freequeue-IsFamily k) readyqueue
          (free_tasks-other readyqueue (omega arith) (omega arith)))
        blocked (free_tasks-other blocked (omega arith) (omega arith)))
      get_key_blocked (free_tasks-other get_key_blocked (omega arith) (omega arith)))
