-- ===== src/Sched/Switch.antt =====
-- update_process_state_rr and sched_next_rr keep the invariant, and do what next_task says.
use so2_project.Common.{
  ℕ, ◌≡◌, refl, ◌≢◌, ◌⊎◌, inl, inr, ap, ◌∙◌, none, some, List, [], ◌∷◌, sym, List-cases, All, arith,
  ◌==◌, if◌then◌else◌,
}
use mathlib.Core.Path.{subst}
use so2_project.Links.{list_add_tail, list_del}
use so2_project.Links.Ring.{IsRing, list_empty-nil, list_empty-cons, list_first-cons}
use so2_project.Links.Family.{Family, enqueue, dequeue}
use so2_project.Links.Family.Enqueue.{list_add_tail-IsFamily}
use so2_project.Links.Family.Dequeue.{list_del-IsFamily}
use so2_project.Kernel.{
  Kernel, TaskState, st_ready, st_blocked, null, readyqueue, blocked, get_key_blocked, list_of,
  list_head_to_task_struct,
}
use so2_project.Sched.{
  is_run, dispatch, task_switch, pick_next, sched_next_rr, update_process_state_rr,
}
use so2_project.Sched.Inv.{
  IsTask, IsQueues, IsSched, next_on, next_task, list_of-task, IsTask-list_head_to_task_struct,
  dispatch-state, task_switch_lem,
}

-- The state that a queue goes with.
abbrev pub queued_state : ℕ → TaskState
queued_state dst = if dst == readyqueue then st_ready else st_blocked

-- What update_process_state_rr leaves, for a queue that is not NULL.
pub record Moved (k k' : Kernel) (t dst : ℕ) : Type 0 where
  pub links :
      k'.links
      ≡ list_add_tail
          (if is_run (k.tasks t).state then k.links else list_del k.links (list_of t))
          (list_of t)
          dst
  pub state :
      (u : ℕ) → (k'.tasks u).state ≡ (if u == t then queued_state dst else (k.tasks u).state)
  pub idle : k'.idle_task ≡ k.idle_task
  pub current : k'.current ≡ k.current

pub update_process_state_rr-Moved :
    (k : Kernel) (t dst : ℕ) → dst ≢ null → Moved k (update_process_state_rr k t dst) t dst
unfolding update_process_state_rr
update_process_state_rr-Moved k t dst ne = record {
  links = ground arith;
  state = λ u. ground arith;
  idle = ground arith;
  current = ground arith;
}

-- The queues that a task may go to, and which the idle task may go to.
abbrev pub MayQueue : (idle t dst : ℕ) → Type 0
MayQueue idle t dst =
    (dst ≡ readyqueue) ⊎ (((dst ≡ blocked) ⊎ (dst ≡ get_key_blocked)) × (t ≢ idle))

queue_head :
    {k : Kernel} {f : Family} {t : ℕ} (dst : ℕ)
    → IsQueues k f
    → MayQueue k.idle_task t dst
    → f.owner dst ≡ some dst
queue_head dst q which = ground (arith, q.ready_head, q.blocked_head, q.keys_head)

-- A task that is in no ring goes to the end of one.
module _ {k k' : Kernel} {f : Family} (q : IsQueues k f) (t dst : ℕ)
    (which : MayQueue k.idle_task t dst) where
  module _ (is_task : IsTask t) (free : f.owner (list_of t) ≡ none)
      (links : k'.links ≡ list_add_tail k.links (list_of t) dst)
      (state : (u : ℕ)
        → (k'.tasks u).state ≡ (if u == t then queued_state dst else (k.tasks u).state))
      (same_idle : k'.idle_task ≡ k.idle_task) where
    pub enqueue-IsQueues : IsQueues k' (enqueue f (list_of t) dst)
    enqueue-IsQueues = record {
      family =
          rw links (list_add_tail-IsFamily q.family dst (queue_head dst q which) (list_of t) free);
      free_head = ground (arith, q.free_head);
      ready_head = ground (arith, q.ready_head);
      blocked_head = ground (arith, q.blocked_head);
      keys_head = ground (arith, q.keys_head);
      entry_of = λ a o ne. ground (arith, q.entry_of a);
      free_entry_of = λ a o ne. ground (arith, which, q.free_entry_of a);
      keys_entry_of = λ a o ne. ground (arith, q.keys_entry_of a);
      ready = λ u task o. ground (arith, q.ready u, state u);
      waiting = λ u task o. ground (arith, q.waiting u, state u);
      waiting_key = λ u task o. ground (arith, q.waiting_key u, state u);
      idle_is_task = rw same_idle q.idle_is_task;
      idle = rw same_idle (ground (arith, q.idle));
    }

-- An entry leaves its ring, and no task changes.
module _ {k : Kernel} {f : Family} (q : IsQueues k f) (e h : ℕ) where
  pub dequeue-IsQueues :
      f.owner h ≡ some h
      → f.owner e ≡ some h
      → e ≢ h
      → f.owner e ≢ some e
      → IsQueues (record k { links = list_del k.links e }) (dequeue f e h)
  dequeue-IsQueues head entry ne no_head = record {
    family = list_del-IsFamily q.family h head e entry ne;
    free_head = ground (arith, q.free_head);
    ready_head = ground (arith, q.ready_head);
    blocked_head = ground (arith, q.blocked_head);
    keys_head = ground (arith, q.keys_head);
    entry_of = λ a o na. ground (arith, q.entry_of a);
    free_entry_of = λ a o na. ground (arith, q.free_entry_of a);
    keys_entry_of = λ a o na. ground (arith, q.keys_entry_of a);
    ready = λ u task o. ground (arith, q.ready u);
    waiting = λ u task o. ground (arith, q.waiting u);
    waiting_key = λ u task o. ground (arith, q.waiting_key u);
    idle_is_task = q.idle_is_task;
    idle = ground (arith, q.idle);
  }

-- The running task goes to the end of a queue.
pub running-enqueue :
    {k : Kernel} {f : Family} (dst : ℕ)
    → IsSched k f
    → MayQueue k.idle_task k.current dst
    → IsQueues (update_process_state_rr k k.current dst) (enqueue f (list_of k.current) dst)
running-enqueue {k} {f} dst v which =
    let m = update_process_state_rr-Moved k k.current dst (ground arith) in
    enqueue-IsQueues v.queues k.current dst which v.current_is_task v.unqueued
      (rw m.links (rw v.running refl)) m.state m.idle

-- What pick_next takes from the queues, given the task and the rings that it should leave.
record Picked (k : Kernel) (next : ℕ × Family) (r : ℕ × Kernel) : Type 0 where
  queues : IsQueues r.1 next.1
  task : r.0 ≡ next.0
  is_task : IsTask next.0
  unqueued : next.1.owner (list_of next.0) ≡ none
  idle : r.1.idle_task ≡ k.idle_task

module _ (k : Kernel) (f : Family) (q : IsQueues k f) where
  pub ready-IsRing : (xs : List ℕ) → f.queue readyqueue ≡ xs → IsRing k.links readyqueue xs
  ready-IsRing xs e = subst (IsRing k.links readyqueue) e (q.family.ring readyqueue q.ready_head)

  -- With no task ready, the idle task is in no ring.
  idle_free : f.queue readyqueue ≡ [] → f.owner (list_of k.idle_task) ≡ none
  idle_free e =
      let task = q.idle_is_task in
      ground (arith, q.idle, e, q.family.member (list_of k.idle_task) readyqueue)

  pick_next-nil : f.queue readyqueue ≡ [] → Picked k (k.idle_task, f) (pick_next k)
  unfolding pick_next
  pick_next-nil e = rw (list_empty-nil (ready-IsRing [] e)) (record {
    queues = q;
    task = refl;
    is_task = q.idle_is_task;
    unqueued = idle_free e;
    idle = refl;
  })

  pick_next-cons :
      (e : ℕ) (r : List ℕ)
      → f.queue readyqueue ≡ e ∷ r
      → Picked k (list_head_to_task_struct e, dequeue f e readyqueue) (pick_next k)
  unfolding pick_next
  pick_next-cons e r eq =
      let ring = ready-IsRing (e ∷ r) eq in
      let ne : e ≢ readyqueue = λ h. ring.outside.0 (sym h) in
      let all =
        subst (All (λ a. f.owner a ≡ some readyqueue)) eq
          (q.family.owned readyqueue q.ready_head) in
      let own : f.owner e ≡ some readyqueue = all.0 in
      rw (list_empty-cons ring, list_first-cons ring)
        (record {
          queues = dequeue-IsQueues q e readyqueue q.ready_head own ne (λ h. ne (ground arith));
          task = refl;
          is_task = IsTask-list_head_to_task_struct e;
          unqueued = rw (list_of-task e (q.entry_of e own ne)) (ground arith);
          idle = refl;
        })

next_task-nil : (idle : ℕ) (f : Family) → f.queue readyqueue ≡ [] → next_task idle f ≡ (idle, f)
next_task-nil idle f e = ap (next_on idle f) e

next_task-cons :
    (idle : ℕ) (f : Family) (e : ℕ) (r : List ℕ)
    → f.queue readyqueue ≡ e ∷ r
    → next_task idle f ≡ (list_head_to_task_struct e, dequeue f e readyqueue)
next_task-cons idle f e r eq = ap (next_on idle f) eq

pick_next-Picked :
    (k : Kernel) (f : Family) → IsQueues k f → Picked k (next_task k.idle_task f) (pick_next k)
pick_next-Picked k f q = elim (List-cases (f.queue readyqueue)) [
  | inl e ↦ rw (next_task-nil k.idle_task f e) (pick_next-nil k f q e)
  | inr (e, r, eq) ↦ rw (next_task-cons k.idle_task f e r eq) (pick_next-cons k f q e r eq)
]

-- A task that is in no ring is made to run.
module _ {k : Kernel} {f : Family} (q : IsQueues k f) (t : ℕ)
    (free : f.owner (list_of t) ≡ none) where
  run-IsQueues : IsQueues (task_switch (dispatch k t) t) f
  run-IsQueues =
      let (links, tasks, idle, cur) = task_switch_lem (dispatch k t) t in
      record {
        family = rw links q.family;
        free_head = q.free_head;
        ready_head = q.ready_head;
        blocked_head = q.blocked_head;
        keys_head = q.keys_head;
        entry_of = q.entry_of;
        free_entry_of = q.free_entry_of;
        keys_entry_of = q.keys_entry_of;
        ready = λ u task o. rw tasks (ground (arith, q.ready u, dispatch-state k t u));
        waiting = λ u task o. rw tasks (ground (arith, q.waiting u, dispatch-state k t u));
        waiting_key = λ u task o. rw tasks (ground (arith, q.waiting_key u, dispatch-state k t u));
        idle_is_task = rw idle q.idle_is_task;
        idle = rw idle q.idle;
      }

  run-IsSched : IsTask t → IsSched (task_switch (dispatch k t) t) f
  run-IsSched task =
      let (links, tasks, idle, cur) = task_switch_lem (dispatch k t) t in
      record {
        queues = run-IsQueues;
        current_is_task = rw cur task;
        unqueued = rw cur free;
        running = rw (cur, tasks) (ground (arith, dispatch-state k t t));
      }

-- When the queues satisfy IsQueues, whatever runs, sched_next_rr makes run the first task of the ready queue, or
-- the idle task if none is ready. That task is in no queue any more and its state is ST_RUN; the
-- others stay where they are, in order; and the invariant of the scheduler holds.
pub sched_next_rr-IsSched :
    {k : Kernel} {f : Family}
    → IsQueues k f
    → IsSched (sched_next_rr k) (next_task k.idle_task f).1
      × ((sched_next_rr k).current ≡ (next_task k.idle_task f).0)
      × ((sched_next_rr k).idle_task ≡ k.idle_task)
unfolding sched_next_rr
sched_next_rr-IsSched {k} {f} q =
    let p = pick_next-Picked k f q in
    let t = (pick_next k).0 in
    let (_, _, idle, cur) = task_switch_lem (dispatch (pick_next k).1 t) t in
    (
      subst (λ u. IsSched (task_switch (dispatch (pick_next k).1 u) u) (next_task k.idle_task f).1)
          (sym p.task) (run-IsSched p.queues (next_task k.idle_task f).0 p.unqueued p.is_task),
      cur ∙ p.task,
      idle ∙ p.idle,
    )
