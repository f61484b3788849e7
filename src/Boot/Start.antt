-- ===== src/Boot/Start.antt =====
-- What main leaves: the first process runs, the idle task waits for its turn, and all else is free.
use so2_project.Common.{
  ℕ, ◌<◌, ◌%◌, ◌≡◌, refl, ◌∙◌, ◌≢◌, ◌⊎◌, inl, inr, some, [], ◌∷◌, arith, remove, map,
}
use so2_project.Links.{list_del, init_list_head, list_first}
use so2_project.Links.Ring.{list_first-cons}
use so2_project.Links.Family.{Family, IsFamily, dequeue}
use so2_project.Links.Family.Dequeue.{list_del-IsFamily}
use so2_project.Links.Family.Init.{
  new_head, enqueue_range, init_list_head-IsFamily, no_rings, enqueue_range-entry,
  enqueue_range-owner,
}
use so2_project.Kernel.{
  Kernel, st_run, freequeue, readyqueue, blocked, get_key_blocked, freesem, list_of, memoria_of,
  thread_child_list_of, task_address, list_head_to_task_struct, print,
}
use so2_project.Messages.{kernel_loaded}
use so2_project.Boot.{
  allocate_dir, clear_has_threads, fill_idle, init_mm, init_sched, init_idle, init_task1, boot,
}
use so2_project.Boot.Queues.{
  free_tasks, empty_queues, sched_family, task_entry, sem_entry, init_sched-IsFamily,
}
use so2_project.Sched.Inv.{IsTask, IsSched}

abbrev pub task0 : ℕ
task0 = task_address 0

abbrev pub task1 : ℕ
task1 = task_address 1

unfoldable pub idle_family : Family
idle_family = new_head (dequeue sched_family (task_entry 0) freequeue) (memoria_of task0)

unfoldable pub boot_family : Family
boot_family =
    new_head (new_head (dequeue idle_family (task_entry 1) freequeue) (memoria_of task1))
      (thread_child_list_of task1)

clear_has_threads-links : (k : Kernel) → (clear_has_threads k).links ≡ k.links
unfolding clear_has_threads
clear_has_threads-links k = ground arith

fill_idle-links :
    (k : Kernel) (c : ℕ) → (fill_idle k c).links ≡ init_list_head k.links (memoria_of c)
unfolding fill_idle
fill_idle-links k c = refl

init_idle_lem :
    (k : Kernel)
    → list_first k.links freequeue ≡ task_entry 0
    → ((init_idle k).links ≡ init_list_head (list_del k.links (task_entry 0)) (memoria_of task0))
      × ((init_idle k).idle_task ≡ task0)
unfolding init_idle list_head_to_task_struct
init_idle_lem k h =
    let k₁ : Kernel = record k { links = list_del k.links (task_entry 0) } in
    rw h (clear_has_threads-links (fill_idle k₁ task0) ∙ fill_idle-links k₁ task0, refl)

init_task1_lem :
    (k : Kernel)
    → list_first k.links freequeue ≡ task_entry 1
    → ((init_task1 k).links
        ≡ init_list_head
            (init_list_head (list_del k.links (task_entry 1)) (memoria_of task1))
            (thread_child_list_of task1))
      × ((init_task1 k).idle_task ≡ k.idle_task)
      × ((init_task1 k).esp0 ≡ task1)
      × (((init_task1 k).tasks task1).state ≡ st_run)
unfolding init_task1 list_head_to_task_struct allocate_dir
init_task1_lem k h = rw h (refl, refl, refl, refl)

sched_first : (k : Kernel) → list_first (init_sched k).links freequeue ≡ task_entry 0
unfolding sched_family empty_queues free_tasks enqueue_range
sched_first k = list_first-cons ((init_sched-IsFamily k).ring freequeue refl)

init_idle-IsFamily : (k : Kernel) → IsFamily (init_idle (init_sched k)).links idle_family
unfolding idle_family sched_family empty_queues free_tasks enqueue_range
init_idle-IsFamily k = rw (init_idle_lem (init_sched k) (sched_first k)).0 (
    init_list_head-IsFamily
      (list_del-IsFamily (init_sched-IsFamily k) freequeue refl (task_entry 0) refl (omega arith))
      (memoria_of task0) refl)

pub idle_first : (k : Kernel) → list_first (init_idle (init_sched k)).links freequeue ≡ task_entry 1
unfolding idle_family sched_family empty_queues free_tasks enqueue_range remove
idle_first k = list_first-cons ((init_idle-IsFamily k).ring freequeue refl)

boot-IsFamily : (k : Kernel) → IsFamily (init_task1 (init_idle (init_sched k))).links boot_family
unfolding boot_family idle_family sched_family empty_queues free_tasks enqueue_range
boot-IsFamily k = rw (init_task1_lem (init_idle (init_sched k)) (idle_first k)).0 (
    init_list_head-IsFamily
      (init_list_head-IsFamily
        (list_del-IsFamily (init_idle-IsFamily k) freequeue refl (task_entry 1) refl (omega arith))
        (memoria_of task1) refl)
      (thread_child_list_of task1) refl)

-- What the rings of the start say of an address.
free_tasks-owner : (a h : ℕ) → h ≢ freequeue → free_tasks.owner a ≢ some h
unfolding free_tasks
free_tasks-owner a h ne o =
    let o' : (new_head no_rings freequeue).owner a ≡ some h =
      enqueue_range-owner task_entry (λ x y e. omega arith) freequeue (λ x e. omega arith)
        (new_head no_rings freequeue) 10 a h ne o in
    absurd (ground arith)

sched_family-owner :
    (a h : ℕ)
    → h ≢ freesem
    → sched_family.owner a ≡ some h
    → (new_head empty_queues freesem).owner a ≡ some h
unfolding sched_family
sched_family-owner a h ne o =
    enqueue_range-owner sem_entry (λ x y e. omega arith) freesem (λ x e. omega arith)
      (new_head empty_queues freesem) 10 a h ne o

boot_family-queues :
    (a h : ℕ) → h ≢ freequeue → h ≢ freesem → h < 64 → boot_family.owner a ≡ some h → a ≡ h
unfolding boot_family idle_family empty_queues
boot_family-queues a h p q small o =
    let o' : sched_family.owner a ≡ some h = ground arith in
    let o'' = sched_family-owner a h q o' in ground (arith, free_tasks-owner a h)

boot_family-free : (a : ℕ) → boot_family.owner a ≡ some freequeue → a ≢ freequeue → a % 4096 ≡ 16
unfolding boot_family idle_family empty_queues free_tasks
boot_family-free a o ne =
    let o' : sched_family.owner a ≡ some freequeue = ground arith in
    let o'' = sched_family-owner a freequeue (omega arith) o' in
    enqueue_range-entry task_entry (λ x y e. omega arith) freequeue (λ x e. omega arith)
      (new_head no_rings freequeue) (λ x. x % 4096 ≡ 16) 10 a (λ i. omega arith)
      (λ z. absurd (ground arith)) (ground arith)

none_waits :
    (t h : ℕ)
    → IsTask t
    → (h ≡ readyqueue) ⊎ ((h ≡ blocked) ⊎ (h ≡ get_key_blocked))
    → boot_family.owner (list_of t) ≢ some h
none_waits t h task which o = elim which [
  | inl r ↦ ground (arith, boot_family-queues (list_of t) h)
  | inr b ↦ ground (arith, boot_family-queues (list_of t) h)
]

-- No task waits in any queue.
start-IsSched :
    (k : Kernel)
    → IsFamily k.links boot_family
    → k.current ≡ task1
    → k.idle_task ≡ task0
    → (k.tasks task1).state ≡ st_run
    → IsSched k boot_family
unfolding boot_family idle_family sched_family empty_queues free_tasks enqueue_range
start-IsSched k v cur idle run = record {
  queues = record {
    family = v;
    free_head = refl;
    ready_head = refl;
    blocked_head = refl;
    keys_head = refl;
    entry_of = λ a o ne.
        absurd (ne (boot_family-queues a readyqueue (omega arith) (omega arith) (omega arith) o));
    free_entry_of = boot_family-free;
    keys_entry_of = λ a o ne.
        absurd
          (ne (boot_family-queues a get_key_blocked (omega arith) (omega arith) (omega arith) o));
    ready = λ t task o. absurd (none_waits t readyqueue task (inl refl) o);
    waiting = λ t task o. absurd (none_waits t blocked task (inr (inl refl)) o);
    waiting_key = λ t task o. absurd (none_waits t get_key_blocked task (inr (inr refl)) o);
    idle_is_task = rw idle refl;
    idle = rw idle (inl refl);
  };
  current_is_task = rw cur refl;
  unqueued = rw cur refl;
  running = rw cur run;
}

-- Whatever the memory holds at the start, main leaves the scheduler in order: the first process runs,
-- no task waits in any queue, and the eight tasks that are left are free.
pub boot-IsSched :
    (k : Kernel)
    → IsSched (boot k) boot_family
      × ((boot k).current ≡ task_address 1)
      × ((boot k).idle_task ≡ task_address 0)
      × (boot_family.queue readyqueue ≡ [])
      × (boot_family.queue freequeue
          ≡ map list_of (map task_address (2 ∷ 3 ∷ 4 ∷ 5 ∷ 6 ∷ 7 ∷ 8 ∷ 9 ∷ [])))
unfolding boot boot_family idle_family sched_family empty_queues free_tasks enqueue_range remove
boot-IsSched k =
    let k₀ = print k kernel_loaded in
    let started = init_task1_lem (init_idle (init_sched (init_mm k₀))) (idle_first (init_mm k₀)) in
    let idle = started.1 ∙ (init_idle_lem (init_sched (init_mm k₀)) (sched_first (init_mm k₀))).1 in
    (
      start-IsSched (boot k) (boot-IsFamily (init_mm k₀)) started.2 idle started.3,
      started.2,
      idle,
      refl,
      refl,
    )
