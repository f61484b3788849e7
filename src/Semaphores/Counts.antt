-- ===== src/Semaphores/Counts.antt =====
-- The counts of semaphores: a count below zero is the number of processes that wait.
use so2_project.Common.{
  ℕ, suc, ◌+◌, ◌≡◌, refl, sym, ap, ◌∙◌, ◌≢◌, inl, inr, ℤ, pos, neg_part, ◌+ℤ◌, ◌-ℤ◌, ltb_ℤ, leb_ℤ,
  some, Bool, true, false, Bool-cases, arith, ==-self, List, [], ◌∷◌, ◌++◌, length, length-append,
  remove, All, if◌then◌else◌,
}
use mathlib.Core.Path.{subst}
use so2_project.Links.{list_add_tail, list_del}
use so2_project.Links.Ring.{IsRing, list_first-cons}
use so2_project.Links.Family.{Family, IsFamily, enqueue, dequeue}
use so2_project.Links.Family.Enqueue.{list_add_tail-IsFamily}
use so2_project.Links.Family.Dequeue.{list_del-IsFamily}
use so2_project.Kernel.{Kernel, readyqueue, list_of, sem_blocked_of, print}
use so2_project.Messages.{wait_found, wait_blocked}
use so2_project.Sched.{sched_next_rr, pick_next, task_switch}
use so2_project.Sched.Inv.{IsSched, next_on, next_task}
use so2_project.Semaphores.{set_sem, sys_sem_wait, sys_sem_signal}
use so2_project.Semaphores.Waits.{IsOther, other-IsQueues, Waited, sys_sem_wait-IsSched}

-- The list of the semaphore `s` is a ring of its own, which holds as many entries as its count says.
pub record IsCounted (k : Kernel) (f : Family) (s : ℕ) : Type 0 where
  pub head : f.owner (sem_blocked_of s) ≡ some (sem_blocked_of s)
  pub apart : sem_blocked_of s ≢ readyqueue
  pub count : length (f.queue (sem_blocked_of s)) ≡ neg_part (k.sems s).count

-- The first that waits goes to the end of the ready queue.
abbrev pub signalled : Family → (h : ℕ) → List ℕ → Family
signalled f h [] = f
signalled f h (e ∷ r) = enqueue (dequeue f e h) e readyqueue

-- What sem_signal leaves.
abbrev pub Signalled : Kernel → Family → (s : ℕ) → ℤ × Kernel → Type 0
Signalled k f s r =
    let f' = signalled f (sem_blocked_of s) (f.queue (sem_blocked_of s)) in
    (r.0 ≡ pos 0)
    × IsFamily r.1.links f'
    × IsCounted r.1 f' s
    × ((r.1.sems s).count ≡ (k.sems s).count +ℤ pos 1)
    × (r.1.tasks ≡ k.tasks)

-- Whether a signal finds a process that waits.
nobody :
    (c : ℤ) → 0 ≡ neg_part c → (leb_ℤ (c +ℤ pos 1) (pos 0) ≡ false) × (0 ≡ neg_part (c +ℤ pos 1))
nobody c e = (ground arith, ground arith)

somebody :
    (c : ℤ) (n : ℕ)
    → suc n ≡ neg_part c
    → (leb_ℤ (c +ℤ pos 1) (pos 0) ≡ true) × (n ≡ neg_part (c +ℤ pos 1))
somebody c n e = (ground arith, ground arith)

module _ {k : Kernel} {f : Family} (s : ℕ) (v : IsFamily k.links f)
    (ready : f.owner readyqueue ≡ some readyqueue) (c : IsCounted k f s) where
  abbrev h : ℕ
  h = sem_blocked_of s

  signalled-IsFamily :
      (e : ℕ) (r : List ℕ)
      → f.queue h ≡ e ∷ r
      → IsFamily
          (list_add_tail (list_del k.links e) e readyqueue)
          (enqueue (dequeue f e h) e readyqueue)
        × ((enqueue (dequeue f e h) e readyqueue).owner h ≡ some h)
        × ((enqueue (dequeue f e h) e readyqueue).queue h ≡ r)
  unfolding remove
  signalled-IsFamily e r eq =
      let ring = subst (IsRing k.links h) eq (v.ring h c.head) in
      let ne : e ≢ h = λ p. ring.outside.0 (sym p) in
      let own = (subst (All (λ a. f.owner a ≡ some h)) eq (v.owned h c.head)).0 in
      let apart = c.apart in
      let w = list_del-IsFamily v h c.head e own ne in
      (
        list_add_tail-IsFamily w readyqueue (ground arith) e (ground arith),
        ground (arith, c.head),
        ground (arith, eq),
      )

  signal-Signalled : (q : List ℕ) → f.queue h ≡ q → Signalled k f s (sys_sem_signal k s)
  unfolding sys_sem_signal
  signal-Signalled [] eq =
      let (stays, zero_left) = nobody (k.sems s).count (ap length (sym eq) ∙ c.count) in
      rw (==-self s, stays, eq)
        (
          refl,
          v,
          record { head = c.head; apart = c.apart; count = rw (eq, ==-self s) zero_left },
          rw (==-self s) refl,
          refl,
        )
  signal-Signalled (e ∷ r) eq =
      let (wakes, left) = somebody (k.sems s).count (length r) (ap length (sym eq) ∙ c.count) in
      let first = list_first-cons (subst (IsRing k.links h) eq (v.ring h c.head)) in
      let (family, head, queue) = signalled-IsFamily e r eq in
      rw (==-self s, wakes, eq, first)
        (
          refl,
          family,
          record { head = head; apart = c.apart; count = rw (==-self s) (ap length queue ∙ left) },
          rw (==-self s) refl,
          refl,
        )

-- When the rings of the kernel are in order, the ready queue is one of them and the count of a semaphore below
-- zero is the number of processes in its list, sys_semSignal returns 0, counts up, and keeps that relation.
-- If a process waits, the first goes from the list to the end of the ready queue; if none waits, no ring
-- changes. No task structure is written, so a process that waited has the state after the call that it had before.
pub sys_sem_signal-Signalled :
    {k : Kernel} {f : Family} (s : ℕ)
    → IsFamily k.links f
    → f.owner readyqueue ≡ some readyqueue
    → IsCounted k f s
    → Signalled k f s (sys_sem_signal k s)
sys_sem_signal-Signalled {k} {f} s v ready c =
    signal-Signalled s v ready c (f.queue (sem_blocked_of s)) refl

sched_next_rr-sems : (k : Kernel) → (sched_next_rr k).sems ≡ k.sems
unfolding sched_next_rr pick_next task_switch
sched_next_rr-sems k = ground arith

-- The next task leaves the ready queue, and nothing else changes.
next_on-other :
    (idle h : ℕ) (f : Family) (q : List ℕ)
    → h ≢ readyqueue
    → f.owner h ≡ some h
    → All (λ a. f.owner a ≡ some readyqueue) q
    → ((next_on idle f q).1.owner h ≡ some h) × ((next_on idle f q).1.queue h ≡ f.queue h)
next_on-other idle h f [] apart head all = (head, refl)
next_on-other idle h f (e ∷ r) apart head all = let first = all.0 in (ground arith, ground arith)

one_more :
    (c : ℤ) (n : ℕ)
    → ltb_ℤ (c -ℤ pos 1) (pos 0) ≡ true
    → n ≡ neg_part c
    → n + 1 ≡ neg_part (c -ℤ pos 1)
one_more c n w e = ground arith

none_more :
    (c : ℤ) (n : ℕ)
    → ltb_ℤ (c -ℤ pos 1) (pos 0) ≡ false
    → n ≡ neg_part c
    → n ≡ neg_part (c -ℤ pos 1)
none_more c n w e = ground arith

-- The caller joins those that wait.
module _ {k : Kernel} {f : Family} (s : ℕ) (v : IsSched k f) (o : IsOther f (sem_blocked_of s))
    (c : IsCounted k f s) (ne : k.current ≢ k.idle_task)
    (waits : ltb_ℤ ((k.sems s).count -ℤ pos 1) (pos 0) ≡ true) where
  abbrev sem_head : ℕ
  sem_head = sem_blocked_of s

  abbrev joined : Family
  joined = enqueue f (list_of k.current) sem_head

  joined-counted :
      let next = (next_task k.idle_task joined).1 in
      (next.owner sem_head ≡ some sem_head)
      × (length (next.queue sem_head) ≡ neg_part ((k.sems s).count -ℤ pos 1))
  joined-counted =
      let q = other-IsQueues sem_head v o ne in
      let still : joined.owner sem_head ≡ some sem_head = ground (arith, c.head) in
      let (head, queue) =
        next_on-other k.idle_task sem_head joined (joined.queue readyqueue) c.apart still
          (q.family.owned readyqueue q.ready_head) in
      let tail : joined.queue sem_head ≡ f.queue sem_head ++ (list_of k.current ∷ []) =
        ground arith in
      (
        head,
        ap length (queue ∙ tail)
            ∙ length-append (f.queue sem_head) (list_of k.current ∷ [])
            ∙ one_more (k.sems s).count (length (f.queue sem_head)) waits c.count,
      )

-- What sem_wait leaves of the count.
abbrev pub Counted : Kernel → Family → (s : ℕ) → Bool → ℤ × Kernel → Type 0
Counted k f s waits r =
    let next = next_task k.idle_task (enqueue f (list_of k.current) (sem_blocked_of s)) in
    IsCounted r.1 (if waits then next.1 else f) s × ((r.1.sems s).count ≡ (k.sems s).count -ℤ pos 1)

wait-Counted :
    {k : Kernel} {f : Family} (s : ℕ)
    → IsSched k f
    → IsOther f (sem_blocked_of s)
    → IsCounted k f s
    → k.current ≢ k.idle_task
    → Counted k f s (ltb_ℤ ((k.sems s).count -ℤ pos 1) (pos 0)) (sys_sem_wait k s)
unfolding sys_sem_wait
wait-Counted {k} {f} s v o c ne =
    let k₁ : Kernel =
      print (set_sem k s (record (k.sems s) { count = (k.sems s).count -ℤ pos 1 })) wait_found in
    let k₂ : Kernel = print k₁ wait_blocked in
    let same =
      sched_next_rr-sems
        (record k₂ { links = list_add_tail k₂.links (list_of k₂.current) (sem_blocked_of s) }) in
    rw (==-self s) (elim (Bool-cases (ltb_ℤ ((k.sems s).count -ℤ pos 1) (pos 0))) [
      | inl waits ↦
          let (head, counted) = joined-counted s v o c ne waits in
          let left : ((sched_next_rr (record k₂ {
            links = list_add_tail k₂.links (list_of k₂.current) (sem_blocked_of s);
          })).sems
                s).count
              ≡ (k.sems s).count -ℤ pos 1 =
            rw same (rw (==-self s) refl) in
          rw waits (
            record { head = head; apart = c.apart; count = counted ∙ ap neg_part (sym left) },
            left,
          )
      | inr goes ↦ rw goes (
        record {
          head = c.head;
          apart = c.apart;
          count =
              rw (==-self s)
                (none_more (k.sems s).count (length (f.queue (sem_blocked_of s))) goes c.count);
        },
        rw (==-self s) refl,
      )
    ])

-- When the invariant of the scheduler holds, the caller is not the idle task, the semaphore's list is a ring other
-- than the scheduler's queues and its count below zero is the number of processes in that list, sys_semWait
-- returns 0, counts down, and keeps the invariant and that relation. If the count falls below zero, the caller
-- is the last in that list and the first ready task, or else the idle task, runs; if not, the caller goes on
-- and no ring changes.
pub sys_sem_wait-Counted :
    {k : Kernel} {f : Family} (s : ℕ)
    → IsSched k f
    → IsOther f (sem_blocked_of s)
    → IsCounted k f s
    → k.current ≢ k.idle_task
    → let waits = ltb_ℤ ((k.sems s).count -ℤ pos 1) (pos 0) in
      Waited k f (sem_blocked_of s) waits (sys_sem_wait k s)
      × Counted k f s waits (sys_sem_wait k s)
sys_sem_wait-Counted s v o c ne = (sys_sem_wait-IsSched s v o ne, wait-Counted s v o c ne)
