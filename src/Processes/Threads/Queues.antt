-- ===== src/Processes/Threads/Queues.antt =====
-- sys_threadCreateWithStack and the queues.
use so2_project.Common.{ℕ, ◌%◌, ◌≡◌, refl, ◌≢◌, none, false, arith}
use so2_project.Links.{list_add}
use so2_project.Links.Family.{Family, enqueue}
use so2_project.Links.Family.Init.{new_head}
use so2_project.Links.Family.Push.{push_front, list_add-IsFamily}
use so2_project.Kernel.{Kernel, readyqueue, list_of, thread_child_anchor_of, memoria_of, set_task}
use so2_project.Sched.Inv.{IsTask, IsSched}
use so2_project.Sched.Aside.{aside-IsSched}
use so2_project.Semaphores.Waits.{IsOther, new_head-IsSched}
use so2_project.Processes.{copy_union}
use so2_project.Processes.Fork.Queues.{IsAside}
use so2_project.Processes.Threads.{Request, settle_thread, mark_master, join_master, master_list}

-- An address that is no entry of a queue goes to the front of a ring that is none of the scheduler's.
push_front-IsSched :
    {k : Kernel} {f : Family} (a h : ℕ)
    → IsSched k f
    → IsOther f h
    → f.owner a ≡ none
    → a % 4096 ≢ 16
    → IsSched (record k { links = list_add k.links a h }) (push_front f a h)
push_front-IsSched {k} {f} a h v o free odd =
    let q = v.queues in
    let idle_task = q.idle_is_task in
    let current_task = v.current_is_task in
    record {
      queues = record {
        family = list_add-IsFamily q.family h o.head a free;
        free_head = ground (arith, q.free_head, free);
        ready_head = ground (arith, q.ready_head, free);
        blocked_head = ground (arith, q.blocked_head, free);
        keys_head = ground (arith, q.keys_head, free);
        entry_of = λ b own na. ground (arith, q.entry_of b, o.not_ready);
        free_entry_of = λ b own na. ground (arith, q.free_entry_of b, o.not_free);
        keys_entry_of = λ b own na. ground (arith, q.keys_entry_of b, o.not_keys);
        ready = λ u task own. ground (arith, q.ready u, o.not_ready);
        waiting = λ u task own. ground (arith, q.waiting u, o.not_blocked);
        waiting_key = λ u task own. ground (arith, q.waiting_key u, o.not_keys);
        idle_is_task = q.idle_is_task;
        idle = ground (arith, q.idle);
      };
      current_is_task = v.current_is_task;
      unqueued = ground (arith, v.unqueued);
      running = v.running;
    }

-- The rings with a new thread, its empty list of blocks, and its place in the list of threads.
abbrev pub settled : Family → (t : ℕ) → Family
settled f t = new_head f (memoria_of t)

abbrev pub threaded : Family → (t h : ℕ) → Family
threaded f t h =
    enqueue (push_front (settled f t) (thread_child_anchor_of t) h) (list_of t) readyqueue

module _ {k : Kernel} {f : Family} (t : ℕ) (v : IsSched k f) (task : IsTask t)
    (other : t ≢ k.current) (free : f.owner (list_of t) ≡ none) (aside : IsAside f t) where
  pub copy_union-IsSched : IsSched (copy_union k t) f
  copy_union-IsSched =
      aside-IsSched t v other free
        (λ a g o. ground (arith, aside.children, aside.anchor, aside.memory)) refl refl
        (λ u ne. ground arith)

  pub settle_thread-IsSched :
      (next_start_pos : ℕ) (q : Request)
      → IsSched (settle_thread k t next_start_pos q) (settled f t)
  unfolding settle_thread
  settle_thread-IsSched next_start_pos q =
      let w = new_head-IsSched (memoria_of t) v aside.memory (omega arith) in
      aside-IsSched t w other (ground arith) (λ a g o. refl) refl refl (λ u ne. ground arith)

-- What the mark for the master leaves alone.
mark_master_lem :
    (k : Kernel)
    → ((mark_master k).links ≡ k.links)
      × ((mark_master k).current ≡ k.current)
      × ((mark_master k).idle_task ≡ k.idle_task)
      × ((u : ℕ)
          → ((mark_master k).tasks u).master_thread_address ≡ (k.tasks u).master_thread_address)
      × ((u : ℕ) → ((mark_master k).tasks u).state ≡ (k.tasks u).state)
mark_master_lem k =
    (ground arith, ground arith, ground arith, (λ u. ground arith), λ u. ground arith)

pub join_master-same :
    (k : Kernel) (t : ℕ)
    → t ≢ k.current
    → ((join_master k t).current ≡ k.current) × (((join_master k t).tasks t).pid ≡ (k.tasks t).pid)
unfolding join_master
join_master-same k t other = (ground arith, ground arith)

-- The thread joins the list `h` of its master, and the ready queue.
module _ {k : Kernel} {f : Family} (t h : ℕ) (v : IsSched k f) (task : IsTask t)
    (other : t ≢ k.current) (free : f.owner (list_of t) ≡ none)
    (anchor : f.owner (thread_child_anchor_of t) ≡ none) (same : master_list k ≡ h)
    (o : IsOther f h) where
  joined_list :
      master_list
        (set_task (mark_master k) t (record ((mark_master k).tasks t) { has_threads = false }))
      ≡ h
  joined_list =
      let (links, cur, idle, address, state) = mark_master_lem k in
      rw cur (ground (arith, address k.current, same))

  pub join_master-IsSched : IsSched (join_master k t) (push_front f (thread_child_anchor_of t) h)
  unfolding join_master
  join_master-IsSched =
      let (links, cur, idle, address, state) = mark_master_lem k in
      aside-IsSched t (push_front-IsSched (thread_child_anchor_of t) h v o anchor (omega arith))
        other (ground arith) (λ a g own. rw (joined_list, links) refl) idle cur
        (λ u ne. ground (arith, state u))
