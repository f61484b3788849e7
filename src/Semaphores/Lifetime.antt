-- ===== src/Semaphores/Lifetime.antt =====
-- A semaphore from sys_sem_create to sys_semDestroy.
use so2_project.Common.{
  ℕ, ◌+◌, ◌-◌, ◌%◌, ◌≡◌, refl, sym, ◌≢◌, ◌⊎◌, inr, ℤ, pos, ◌==ℤ◌, some, none, true, update, fun_ext,
  arith, List, ◌∷◌, remove, All,
}
use mathlib.Core.Path.{subst}
use so2_project.Links.{list_add, list_del, init_list_head}
use so2_project.Links.Ring.{IsRing, list_empty-cons, list_first-cons}
use so2_project.Links.Family.{Family, IsFamily, dequeue}
use so2_project.Links.Family.Init.{new_head}
use so2_project.Links.Family.Push.{push_front, list_add-IsFamily}
use so2_project.Kernel.{Kernel, freesem, sem_blocked_of, sem_sems_of}
use so2_project.Interrupts.Wakeup.{IsSched-frame}
use so2_project.Sched.Inv.{IsSched}
use so2_project.Sched.Switch.{dequeue-IsQueues}
use so2_project.Semaphores.{sys_sem_create, sys_sem_destroy}
use so2_project.Semaphores.Waits.{IsOther, new_head-IsSched}
use so2_project.Semaphores.Counts.{IsCounted}

-- The semaphore `s` is the first free one, and its list head is in no ring.
pub record IsFirst (f : Family) (s : ℕ) (r : List ℕ) : Type 0 where
  pub head : f.owner freesem ≡ some freesem
  pub queue : f.queue freesem ≡ sem_sems_of s ∷ r
  pub unused : f.owner (sem_blocked_of s) ≡ none
  pub place : sem_blocked_of s % 4096 ≢ 16

-- The rings with a semaphore that is in use.
abbrev pub created : Family → ℕ → Family
created f s = new_head (dequeue f (sem_sems_of s) freesem) (sem_blocked_of s)

-- What sem_create leaves.
abbrev pub Created : Kernel → Family → (s n : ℕ) → List ℕ → (ℤ ⊎ ℕ) × Kernel → Type 0
Created k f s n r x =
    (x.0 ≡ inr s)
    × IsSched x.1 (created f s)
    × IsCounted x.1 (created f s) s
    × IsOther (created f s) (sem_blocked_of s)
    × (x.1.sems s ≡ record { count = pos n; tid = (k.tasks k.current).pid })
    × ((created f s).queue freesem ≡ r)

module _ {k : Kernel} {f : Family} (s : ℕ) (r : List ℕ) (v : IsSched k f) (i : IsFirst f s r) where
  abbrev l : ℕ
  l = sem_sems_of s

  ring : IsRing k.links freesem (l ∷ r)
  ring = subst (IsRing k.links freesem) i.queue (v.queues.family.ring freesem i.head)

  own : f.owner l ≡ some freesem
  own =
      (subst (All (λ a. f.owner a ≡ some freesem)) i.queue (v.queues.family.owned freesem i.head)).0

  ne : l ≢ freesem
  ne h = ring.outside.0 (sym h)

  taken-IsSched : IsSched (record k { links = list_del k.links l }) (dequeue f l freesem)
  taken-IsSched = record {
    queues = dequeue-IsQueues v.queues l freesem i.head own ne (λ h. ne (ground (arith, own)));
    current_is_task = v.current_is_task;
    unqueued = ground (arith, v.unqueued);
    running = v.running;
  }

  created-IsSched :
      IsSched
        (record k { links = init_list_head (list_del k.links l) (sem_blocked_of s) })
        (created f s)
  created-IsSched =
      new_head-IsSched {k = record k { links = list_del k.links l }} (sem_blocked_of s)
        taken-IsSched (ground (arith, i.unused)) i.place

  created-IsOther : IsOther (created f s) (sem_blocked_of s)
  created-IsOther =
      let q = v.queues in
      let unused = i.unused in
      record {
        head = ground arith;
        not_free = λ h. ground (arith, q.free_head);
        not_ready = λ h. ground (arith, q.ready_head);
        not_blocked = λ h. ground (arith, q.blocked_head);
        not_keys = λ h. ground (arith, q.keys_head);
      }

  created-freesem : (created f s).queue freesem ≡ r
  unfolding remove
  created-freesem = ground (arith, i.queue, i.head, i.unused)

  -- The kernel after sem_create.
  abbrev after : ℕ → Kernel
  after n = record k {
    links = init_list_head (list_del k.links l) (sem_blocked_of s);
    sems = update k.sems s (record { count = pos n; tid = (k.tasks k.current).pid });
  }

  create-after : (n : ℕ) → sys_sem_create k (pos n) ≡ (inr s, after n)
  unfolding sys_sem_create
  create-after n =
      let place : s + 12 - 12 ≡ s = omega arith in
      let twice : update (update k.sems s (record (k.sems s) { count = pos n })) s
            (record (update k.sems s (record (k.sems s) { count = pos n }) s) {
              tid = (k.tasks k.current).pid;
            })
          ≡ update k.sems s (record { count = pos n; tid = (k.tasks k.current).pid }) =
        fun_ext λ a. ground arith in
      rw (list_empty-cons ring, list_first-cons ring, place, twice) refl

  after-Created : (n : ℕ) → Created k f s n r (inr s, after n)
  after-Created n = (
    refl,
    IsSched-frame created-IsSched refl refl refl (λ t. refl),
    record { head = created-IsOther.head; apart = created-IsOther.not_ready; count = ground arith },
    created-IsOther,
    ground arith,
    created-freesem,
  )

  destroy-after :
      (n : ℕ)
      → sys_sem_destroy (after n) s
        ≡ (pos 0, record (after n) { links = list_add (after n).links l freesem })
  unfolding sys_sem_destroy
  destroy-after n =
      let mine : (((after n).sems s).tid ==ℤ (k.tasks k.current).pid) ≡ true = ground arith in
      rw mine refl

  destroyed-IsFamily :
      (n : ℕ) → IsFamily (list_add (after n).links l freesem) (push_front (created f s) l freesem)
  destroyed-IsFamily n =
      list_add-IsFamily created-IsSched.queues.family freesem (ground (arith, i.head, i.unused)) l
        (ground (arith, own))

-- When the invariant of the scheduler holds, a semaphore is free and the list head of the first free one is in no
-- ring, sys_sem_create with a value that is not negative returns that semaphore and keeps the invariant.
-- The semaphore has the value as its count, the caller's number as its owner and an empty list of
-- waiting processes, and the other free semaphores keep their order.
pub sys_sem_create-Created :
    {k : Kernel} {f : Family} (s : ℕ) (r : List ℕ)
    → IsSched k f
    → IsFirst f s r
    → (n : ℕ) → Created k f s n r (sys_sem_create k (pos n))
sys_sem_create-Created {k} {f} s r v i n =
    subst (Created k f s n r) (sym (create-after s r v i n)) (after-Created s r v i n)

-- What sem_destroy leaves of a semaphore that was created just before.
abbrev pub Destroyed : Family → (s : ℕ) → List ℕ → ℤ × Kernel → Type 0
Destroyed f s r x =
    let f' = push_front (created f s) (sem_sems_of s) freesem in
    (x.0 ≡ pos 0) × IsFamily x.1.links f' × (f'.queue freesem ≡ sem_sems_of s ∷ r)

-- When the invariant of the scheduler holds, a semaphore is free and the list head of the first free one is in no
-- ring, sys_semDestroy of the semaphore that the same process has just created, with a value that is not
-- negative, returns 0, and the free semaphores are those that were free before, in the same order.
pub sys_sem_destroy-sys_sem_create :
    {k : Kernel} {f : Family} (s : ℕ) (r : List ℕ)
    → IsSched k f
    → IsFirst f s r
    → (n : ℕ) → Destroyed f s r (sys_sem_destroy (sys_sem_create k (pos n)).1 s)
sys_sem_destroy-sys_sem_create {k} {f} s r v i n =
    let made = create-after s r v i n in
    subst (λ x. Destroyed f s r (sys_sem_destroy x.1 s)) (sym made)
      (subst (Destroyed f s r) (sym (destroy-after s r v i n))
        (refl, destroyed-IsFamily s r v i n, ground (arith, created-freesem s r v i)))
