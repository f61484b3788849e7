-- ===== src/Interrupts/Wakeup.antt =====
-- What the routines do with the processes that wait for a key.
use so2_project.Common.{ℕ, ◌≡◌, refl, sym, ap, ◌∙◌, ◌≢◌, inl, none, some, List, [], ◌∷◌, arith, All}
use mathlib.Core.Path.{subst}
use so2_project.Links.{list_add_tail, list_del}
use so2_project.Links.Ring.{IsRing, list_empty-nil, list_empty-cons, list_first-cons}
use so2_project.Links.Family.{Family, enqueue, dequeue}
use so2_project.Kernel.{
  Kernel, st_blocked, readyqueue, get_key_blocked, list_of, list_head_to_task_struct,
}
use so2_project.Sched.{update_process_state_rr}
use so2_project.Sched.Inv.{
  IsQueues, IsSched, IsQueues-frame, list_of-task, IsTask-list_head_to_task_struct,
}
use so2_project.Sched.Switch.{update_process_state_rr-Moved, enqueue-IsQueues, dequeue-IsQueues}
use so2_project.Interrupts.{wake_reader}

-- Kernels that agree on what the scheduler's invariant reads.
pub IsSched-frame :
    {k k' : Kernel} {f : Family}
    → IsSched k f
    → k'.links ≡ k.links
    → k'.idle_task ≡ k.idle_task
    → k'.current ≡ k.current
    → ((t : ℕ) → (k'.tasks t).state ≡ (k.tasks t).state)
    → IsSched k' f
IsSched-frame {k} {k'} {f} v l i c s = record {
  queues = IsQueues-frame v.queues l i s;
  current_is_task = rw c v.current_is_task;
  unqueued = rw c v.unqueued;
  running = rw c (s k.current ∙ v.running);
}

-- The entry `e` goes from the queue of those who wait for a key to the end of the ready queue.
abbrev pub woken : Family → ℕ → Family
woken f e = enqueue (dequeue f e get_key_blocked) e readyqueue

module _ {k : Kernel} {f : Family} (e : ℕ) (v : IsSched k f)
    (own : f.owner e ≡ some get_key_blocked) (ne : e ≢ get_key_blocked) where
  abbrev task : ℕ
  task = list_head_to_task_struct e

  entry : list_of task ≡ e
  entry = list_of-task e (v.queues.keys_entry_of e own ne)

  task-blocked : (k.tasks task).state ≡ st_blocked
  task-blocked = v.queues.waiting_key task (IsTask-list_head_to_task_struct e) (rw entry own)

  wake-IsQueues : IsQueues (update_process_state_rr k task readyqueue) (woken f e)
  wake-IsQueues =
      let m = update_process_state_rr-Moved k task readyqueue (omega arith) in
      let q =
        dequeue-IsQueues v.queues e get_key_blocked v.queues.keys_head own ne
          (λ h. ne (ground arith)) in
      subst
        (λ (a : ℕ).
          IsQueues (update_process_state_rr k task readyqueue)
            (enqueue (dequeue f e get_key_blocked) a readyqueue))
        entry
        (enqueue-IsQueues q task readyqueue (inl refl) (IsTask-list_head_to_task_struct e)
          (rw entry (ground arith))
          (rw (m.links, task-blocked)
            (ap (λ (a : ℕ). list_add_tail (list_del k.links a) (list_of task) readyqueue) entry))
          m.state m.idle)

  other_task : task ≢ k.current
  other_task h =
      let u : f.owner e ≡ none =
        sym (ap f.owner entry) ∙ ap (λ x. f.owner (list_of x)) h ∙ v.unqueued in
      absurd (ground arith)

  pub wake-IsSched :
      IsSched (update_process_state_rr k task readyqueue) (woken f e)
      × ((update_process_state_rr k task readyqueue).current ≡ k.current)
  wake-IsSched =
      let m = update_process_state_rr-Moved k task readyqueue (omega arith) in
      (
        record {
          queues = wake-IsQueues;
          current_is_task = rw m.current v.current_is_task;
          unqueued = rw m.current (ground (arith, own, v.unqueued));
          running = rw m.current (ground (arith, m.state k.current, other_task, v.running));
        },
        m.current,
      )

-- What a key press does with the processes that wait for one.
pub reader_woken : Family → List ℕ → Family
reader_woken f [] = f
reader_woken f (e ∷ r) = woken f e

module _ {k : Kernel} {f : Family} (v : IsSched k f) where
  pub keys-IsRing : (xs : List ℕ) → f.queue get_key_blocked ≡ xs → IsRing k.links get_key_blocked xs
  keys-IsRing xs e =
      subst (IsRing k.links get_key_blocked) e
        (v.queues.family.ring get_key_blocked v.queues.keys_head)

  pub wake_reader-IsSched :
      (xs : List ℕ)
      → f.queue get_key_blocked ≡ xs
      → IsSched (wake_reader k) (reader_woken f xs) × ((wake_reader k).current ≡ k.current)
  unfolding wake_reader reader_woken
  wake_reader-IsSched [] eq = rw (list_empty-nil (keys-IsRing [] eq)) (v, refl)
  wake_reader-IsSched (e ∷ r) eq =
      let ring = keys-IsRing (e ∷ r) eq in
      let own =
        subst (All (λ a. f.owner a ≡ some get_key_blocked)) eq
          (v.queues.family.owned get_key_blocked v.queues.keys_head) in
      let w = wake-IsSched e v own.0 (λ h. ring.outside.0 (sym h)) in
      rw (list_empty-cons ring, list_first-cons ring)
        (IsSched-frame w.0 refl refl refl (λ t. refl), w.1)
