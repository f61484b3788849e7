-- ===== src/Sched/Inv.antt =====
-- The invariant of the scheduler: which ring each task structure is in, and in which state.
use so2_project.Common.{
  ℕ, ◌%◌, ◌≡◌, refl, ◌≢◌, ◌⊎◌, none, some, List, [], ◌∷◌, arith, ◌==◌, if◌then◌else◌,
}
use so2_project.Links.Family.{Family, IsFamily, dequeue}
use so2_project.Kernel.{
  Kernel, st_run, st_ready, st_blocked, freequeue, readyqueue, blocked, get_key_blocked, list_of,
  list_head_to_task_struct,
}
use so2_project.Sched.{dispatch, task_switch}

-- A pointer to a task structure.
abbrev pub IsTask : ℕ → Type 0
IsTask t = t % 4096 ≡ 0

-- The queues, whatever runs. The idle task never waits.
pub record IsQueues (k : Kernel) (f : Family) : Type 0 where
  pub family : IsFamily k.links f
  pub free_head : f.owner freequeue ≡ some freequeue
  pub ready_head : f.owner readyqueue ≡ some readyqueue
  pub blocked_head : f.owner blocked ≡ some blocked
  pub keys_head : f.owner get_key_blocked ≡ some get_key_blocked
  pub entry_of : (a : ℕ) → f.owner a ≡ some readyqueue → a ≢ readyqueue → a % 4096 ≡ 16
  pub free_entry_of : (a : ℕ) → f.owner a ≡ some freequeue → a ≢ freequeue → a % 4096 ≡ 16
  pub keys_entry_of :
      (a : ℕ) → f.owner a ≡ some get_key_blocked → a ≢ get_key_blocked → a % 4096 ≡ 16
  pub ready :
      (t : ℕ) → IsTask t → f.owner (list_of t) ≡ some readyqueue → (k.tasks t).state ≡ st_ready
  pub waiting :
      (t : ℕ) → IsTask t → f.owner (list_of t) ≡ some blocked → (k.tasks t).state ≡ st_blocked
  pub waiting_key :
      (t : ℕ)
      → IsTask t
      → f.owner (list_of t) ≡ some get_key_blocked
      → (k.tasks t).state ≡ st_blocked
  pub idle_is_task : IsTask k.idle_task
  pub idle :
      (f.owner (list_of k.idle_task) ≡ none) ⊎ (f.owner (list_of k.idle_task) ≡ some readyqueue)

-- The queues, and a running task that is in none of them.
pub record IsSched (k : Kernel) (f : Family) : Type 0 where
  pub queues : IsQueues k f
  pub current_is_task : IsTask k.current
  pub unqueued : f.owner (list_of k.current) ≡ none
  pub running : (k.tasks k.current).state ≡ st_run

-- What the scheduler is to do: the task that is to run next, and the rings without its entry.
abbrev pub next_on : ℕ → Family → List ℕ → ℕ × Family
next_on idle f [] = (idle, f)
next_on idle f (e ∷ r) = (list_head_to_task_struct e, dequeue f e readyqueue)

abbrev pub next_task : ℕ → Family → ℕ × Family
next_task idle f = next_on idle f (f.queue readyqueue)

-- Kernels that agree on the links, the idle task and the states.
pub IsQueues-frame :
    {k k' : Kernel} {f : Family}
    → IsQueues k f
    → k'.links ≡ k.links
    → k'.idle_task ≡ k.idle_task
    → ((t : ℕ) → (k'.tasks t).state ≡ (k.tasks t).state)
    → IsQueues k' f
IsQueues-frame {k} {k'} {f} q l i s = record {
  family = rw l q.family;
  free_head = q.free_head;
  ready_head = q.ready_head;
  blocked_head = q.blocked_head;
  keys_head = q.keys_head;
  entry_of = q.entry_of;
  free_entry_of = q.free_entry_of;
  keys_entry_of = q.keys_entry_of;
  ready = λ t task o. rw (s t) (q.ready t task o);
  waiting = λ t task o. rw (s t) (q.waiting t task o);
  waiting_key = λ t task o. rw (s t) (q.waiting_key t task o);
  idle_is_task = rw i q.idle_is_task;
  idle = rw i q.idle;
}

-- The task of an entry, and the entry of a task.
pub list_of-task : (a : ℕ) → a % 4096 ≡ 16 → list_of (list_head_to_task_struct a) ≡ a
unfolding list_head_to_task_struct
list_of-task a h = omega arith

pub task-list_of : (t : ℕ) → IsTask t → list_head_to_task_struct (list_of t) ≡ t
unfolding list_head_to_task_struct
task-list_of t h = omega arith

pub IsTask-list_head_to_task_struct : (a : ℕ) → IsTask (list_head_to_task_struct a)
unfolding list_head_to_task_struct
IsTask-list_head_to_task_struct a = omega arith

-- dispatch and task_switch touch no link, and no state but that of the task that is to run.
pub dispatch-links : (k : Kernel) (t : ℕ) → (dispatch k t).links ≡ k.links
dispatch-links k t = refl

pub dispatch-state :
    (k : Kernel) (t u : ℕ)
    → ((dispatch k t).tasks u).state ≡ (if u == t then st_run else (k.tasks u).state)
dispatch-state k t u = ground arith

pub task_switch_lem :
    (k : Kernel) (t : ℕ)
    → ((task_switch k t).links ≡ k.links)
      × ((task_switch k t).tasks ≡ k.tasks)
      × ((task_switch k t).idle_task ≡ k.idle_task)
      × ((task_switch k t).current ≡ t)
unfolding task_switch
task_switch_lem k t = ground arith
