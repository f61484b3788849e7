-- ===== src/Sched/Aside.antt =====
-- What happens to a task that is in no queue and does not run leaves the scheduler's invariant alone,
-- and so do writes to links that are in no ring.
use so2_project.Common.{
  ℕ, ◌≡◌, sym, ap, ◌≢◌, ◌∙◌, none, some, false, List, ◌∷◌, arith, All, All-map,
}
use mathlib.Core.Path.{subst}
use so2_project.Links.{Store, list_add_tail, list_empty, list_first}
use so2_project.Links.Ring.{IsRing, IsRing-frame, list_empty-cons, list_first-cons}
use so2_project.Links.Family.{Family, IsFamily, enqueue}
use so2_project.Links.Family.Enqueue.{list_add_tail-IsFamily}
use so2_project.Kernel.{Kernel, freequeue, list_of}
use so2_project.Boot.{take_free}
use so2_project.Sched.Inv.{IsTask, IsQueues, IsSched, list_of-task}

-- Stores that agree on every address that a ring uses.
pub IsFamily-frame :
    {s s' : Store} {f : Family}
    → IsFamily s f
    → ((a g : ℕ) → f.owner a ≡ some g → s' a ≡ s a)
    → IsFamily s' f
IsFamily-frame {s} {s'} {f} v same = record {
  ring = λ h o.
      IsRing-frame (f.queue h) (same h h o)
        (All-map (λ a. f.owner a ≡ some h) (λ a. s' a ≡ s a) (f.queue h) (λ a p. same a h p)
          (v.owned h o))
        (v.ring h o);
  owned = v.owned;
  member = v.member;
  heads = v.heads;
}

-- Kernels that differ only in a task `t` that is set aside, and in links that no ring uses.
module _ {k k' : Kernel} {f : Family} (t : ℕ) (v : IsSched k f) (other : t ≢ k.current)
    (free : f.owner (list_of t) ≡ none) where
  pub aside-IsSched :
      ((a g : ℕ) → f.owner a ≡ some g → k'.links a ≡ k.links a)
      → k'.idle_task ≡ k.idle_task
      → k'.current ≡ k.current
      → ((u : ℕ) → u ≢ t → (k'.tasks u).state ≡ (k.tasks u).state)
      → IsSched k' f
  aside-IsSched links idle cur state =
      let q = v.queues in
      record {
        queues = record {
          family = IsFamily-frame q.family links;
          free_head = q.free_head;
          ready_head = q.ready_head;
          blocked_head = q.blocked_head;
          keys_head = q.keys_head;
          entry_of = q.entry_of;
          free_entry_of = q.free_entry_of;
          keys_entry_of = q.keys_entry_of;
          ready = λ u task o. state u (λ e. ground arith) ∙ q.ready u task o;
          waiting = λ u task o. state u (λ e. ground arith) ∙ q.waiting u task o;
          waiting_key = λ u task o. state u (λ e. ground arith) ∙ q.waiting_key u task o;
          idle_is_task = rw idle q.idle_is_task;
          idle = rw idle q.idle;
        };
        current_is_task = rw cur v.current_is_task;
        unqueued = rw cur v.unqueued;
        running = rw cur (state k.current (λ e. ground arith) ∙ v.running);
      }

-- A task that is in no queue, and not the idle task, goes to the end of freequeue.
module _ {k : Kernel} {f : Family} (t : ℕ) (q : IsQueues k f) (task : IsTask t)
    (free : f.owner (list_of t) ≡ none) (not_idle : t ≢ k.idle_task) where
  pub give_back-IsQueues :
      IsQueues
        (record k { links = list_add_tail k.links (list_of t) freequeue })
        (enqueue f (list_of t) freequeue)
  give_back-IsQueues = record {
    family = list_add_tail-IsFamily q.family freequeue q.free_head (list_of t) free;
    free_head = ground (arith, q.free_head);
    ready_head = ground (arith, q.ready_head, free);
    blocked_head = ground (arith, q.blocked_head, free);
    keys_head = ground (arith, q.keys_head, free);
    entry_of = λ a own na. ground (arith, q.entry_of a);
    free_entry_of = λ a own na. ground (arith, q.free_entry_of a);
    keys_entry_of = λ a own na. ground (arith, q.keys_entry_of a);
    ready = λ u is_task own. ground (arith, q.ready u);
    waiting = λ u is_task own. ground (arith, q.waiting u);
    waiting_key = λ u is_task own. ground (arith, q.waiting_key u);
    idle_is_task = q.idle_is_task;
    idle = ground (arith, q.idle);
  }

-- The same while another task runs.
pub give_back-IsSched :
    {k : Kernel} {f : Family} (t : ℕ)
    → IsSched k f
    → IsTask t
    → f.owner (list_of t) ≡ none
    → t ≢ k.idle_task
    → t ≢ k.current
    → IsSched
        (record k { links = list_add_tail k.links (list_of t) freequeue })
        (enqueue f (list_of t) freequeue)
give_back-IsSched {k} {f} t v task free not_idle other = record {
  queues = give_back-IsQueues t v.queues task free not_idle;
  current_is_task = v.current_is_task;
  unqueued = ground (arith, v.unqueued);
  running = v.running;
}

-- The first free task structure: its entry is the first of freequeue, and it is not the idle task.
pub take_free-entry :
    {k : Kernel} {f : Family} (e : ℕ) (r : List ℕ)
    → IsSched k f
    → f.queue freequeue ≡ e ∷ r
    → (list_empty k.links freequeue ≡ false)
      × (list_first k.links freequeue ≡ list_of (take_free k).0)
      × ((take_free k).0 ≢ k.idle_task)
take_free-entry {k} {f} e r v eq =
    let ring =
      subst (IsRing k.links freequeue) eq (v.queues.family.ring freequeue v.queues.free_head) in
    let ne : e ≢ freequeue = λ h. ring.outside.0 (sym h) in
    let all =
      subst (All (λ a. f.owner a ≡ some freequeue)) eq
        (v.queues.family.owned freequeue v.queues.free_head) in
    let own : f.owner e ≡ some freequeue = all.0 in
    let entry = list_of-task e (v.queues.free_entry_of e own ne) in
    (
      list_empty-cons ring,
      rw (list_first-cons ring) (sym entry),
      rw (list_first-cons ring) (λ h.
          let o : f.owner (list_of k.idle_task) ≡ some freequeue =
            ap (λ x. f.owner (list_of x)) (sym h) ∙ ap f.owner entry ∙ own in
          ground (arith, v.queues.idle)),
    )
