-- ===== src/Semaphores/Waits.antt =====
-- sem_wait and the queues: a process that has to wait leaves the processor.
use so2_project.Common.{
  ℕ, ◌%◌, ◌≡◌, refl, ◌≢◌, inl, inr, ℤ, pos, ◌-ℤ◌, ltb_ℤ, none, some, Bool, Bool-cases, arith,
  ==-self, if◌then◌else◌,
}
use so2_project.Links.{init_list_head, list_add_tail}
use so2_project.Links.Family.{Family, enqueue}
use so2_project.Links.Family.Enqueue.{list_add_tail-IsFamily}
use so2_project.Links.Family.Init.{new_head, init_list_head-IsFamily}
use so2_project.Kernel.{
  Kernel, freequeue, readyqueue, blocked, get_key_blocked, list_of, sem_blocked_of, print,
}
use so2_project.Messages.{wait_found, wait_blocked}
use so2_project.Sched.Inv.{IsQueues, IsSched, next_task}
use so2_project.Sched.Switch.{sched_next_rr-IsSched}
use so2_project.Interrupts.Wakeup.{IsSched-frame}
use so2_project.Semaphores.{set_sem, sys_sem_wait}

-- The head of a ring that is none of the scheduler's.
pub record IsOther (f : Family) (h : ℕ) : Type 0 where
  pub head : f.owner h ≡ some h
  pub not_free : h ≢ freequeue
  pub not_ready : h ≢ readyqueue
  pub not_blocked : h ≢ blocked
  pub not_keys : h ≢ get_key_blocked

-- The running process, which is not the idle task, goes to the end of such a ring.
pub other-IsQueues :
    {k : Kernel} {f : Family} (h : ℕ)
    → IsSched k f
    → IsOther f h
    → k.current ≢ k.idle_task
    → IsQueues
        (record k { links = list_add_tail k.links (list_of k.current) h })
        (enqueue f (list_of k.current) h)
other-IsQueues {k} {f} h v o ne =
    let q = v.queues in
    record {
      family = list_add_tail-IsFamily q.family h o.head (list_of k.current) v.unqueued;
      free_head = ground (arith, q.free_head, v.unqueued);
      ready_head = ground (arith, q.ready_head, v.unqueued);
      blocked_head = ground (arith, q.blocked_head, v.unqueued);
      keys_head = ground (arith, q.keys_head, v.unqueued);
      entry_of = λ a own na. ground (arith, q.entry_of a, o.not_ready);
      free_entry_of = λ a own na. ground (arith, q.free_entry_of a, o.not_free);
      keys_entry_of = λ a own na. ground (arith, q.keys_entry_of a, o.not_keys);
      ready = λ u task own. ground (arith, q.ready u, o.not_ready);
      waiting = λ u task own. ground (arith, q.waiting u, o.not_blocked);
      waiting_key = λ u task own. ground (arith, q.waiting_key u, o.not_keys);
      idle_is_task = q.idle_is_task;
      idle = ground (arith, q.idle, ne);
    }

-- What sem_wait leaves, given whether the count falls below zero.
abbrev pub Waited : Kernel → Family → (h : ℕ) → Bool → ℤ × Kernel → Type 0
Waited k f h waits r =
    let next = next_task k.idle_task (enqueue f (list_of k.current) h) in
    (r.0 ≡ pos 0)
    × IsSched r.1 (if waits then next.1 else f)
    × (r.1.current ≡ (if waits then next.0 else k.current))

-- When the invariant of the scheduler holds, the idle task does not run and the semaphore's list of waiting
-- processes is a ring of its own, sys_semWait returns 0 and keeps the invariant. If the count falls
-- below zero, the caller goes to the end of that list and the first ready task, or else the idle task, runs;
-- if not, the caller goes on.
pub sys_sem_wait-IsSched :
    {k : Kernel} {f : Family} (s : ℕ)
    → IsSched k f
    → IsOther f (sem_blocked_of s)
    → k.current ≢ k.idle_task
    → Waited k f (sem_blocked_of s) (ltb_ℤ ((k.sems s).count -ℤ pos 1) (pos 0)) (sys_sem_wait k s)
unfolding sys_sem_wait
sys_sem_wait-IsSched {k} {f} s v o ne =
    let k₁ : Kernel =
      print (set_sem k s (record (k.sems s) { count = (k.sems s).count -ℤ pos 1 })) wait_found in
    let v₁ : IsSched (print k₁ wait_blocked) f = IsSched-frame v refl refl refl (λ t. refl) in
    let n = sched_next_rr-IsSched (other-IsQueues (sem_blocked_of s) v₁ o ne) in
    rw (==-self s) (elim (Bool-cases (ltb_ℤ ((k.sems s).count -ℤ pos 1) (pos 0))) [
      | inl waits ↦ rw waits (refl, n.0, n.1)
      | inr goes ↦ rw goes (refl, IsSched-frame v refl refl refl (λ t. refl), refl)
    ])

-- A new ring, as sys_sem_create begins one, leaves the queues in order.
pub new_head-IsSched :
    {k : Kernel} {f : Family} (h : ℕ)
    → IsSched k f
    → f.owner h ≡ none
    → h % 4096 ≢ 16
    → IsSched (record k { links = init_list_head k.links h }) (new_head f h)
new_head-IsSched {k} {f} h v unused apart =
    let q = v.queues in
    let task = q.idle_is_task in
    let now = v.current_is_task in
    record {
      queues = record {
        family = init_list_head-IsFamily q.family h unused;
        free_head = ground (arith, q.free_head);
        ready_head = ground (arith, q.ready_head);
        blocked_head = ground (arith, q.blocked_head);
        keys_head = ground (arith, q.keys_head);
        entry_of = λ a own na. ground (arith, q.entry_of a);
        free_entry_of = λ a own na. ground (arith, q.free_entry_of a);
        keys_entry_of = λ a own na. ground (arith, q.keys_entry_of a);
        ready = λ u is_task own. ground (arith, q.ready u, q.ready_head);
        waiting = λ u is_task own. ground (arith, q.waiting u, q.blocked_head);
        waiting_key = λ u is_task own. ground (arith, q.waiting_key u, q.keys_head);
        idle_is_task = q.idle_is_task;
        idle = ground (arith, q.idle);
      };
      current_is_task = v.current_is_task;
      unqueued = ground (arith, v.unqueued);
      running = v.running;
    }
