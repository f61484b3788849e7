-- ===== src/Processes/Fork/Queues.antt =====
-- sys_fork and the queues: a child that is ready, or a task structure that is free again.
use so2_project.Common.{ℕ, ◌≡◌, refl, ◌∙◌, ◌≢◌, pos, ◌+ℤ◌, none, arith}
use so2_project.Links.Family.{Family, enqueue}
use so2_project.Links.Family.Init.{new_head}
use so2_project.Kernel.{
  Kernel, readyqueue, list_of, thread_child_list_of, thread_child_anchor_of, memoria_of,
}
use so2_project.Boot.{allocate_dir}
use so2_project.Sched.Inv.{IsTask, IsSched}
use so2_project.Sched.Wake.{make_ready-IsSched}
use so2_project.Sched.Aside.{aside-IsSched}
use so2_project.Semaphores.Waits.{new_head-IsSched}
use so2_project.Processes.Fork.{begin_child, name_child, settle_child, finish_child}

-- The heads in a free task structure other than its entry of a queue are in no ring.
pub record IsAside (f : Family) (t : ℕ) : Type 0 where
  pub children : f.owner (thread_child_list_of t) ≡ none
  pub anchor : f.owner (thread_child_anchor_of t) ≡ none
  pub memory : f.owner (memoria_of t) ≡ none

-- The rings with a new ready child, and with its empty list of threads.
abbrev pub forked : Family → ℕ → Family
forked f t = enqueue (new_head f (thread_child_list_of t)) (list_of t) readyqueue

module _ {k : Kernel} {f : Family} (t : ℕ) (v : IsSched k f) (task : IsTask t)
    (other : t ≢ k.current) (free : f.owner (list_of t) ≡ none) (aside : IsAside f t) where
  pub begin_child-IsSched : IsSched (begin_child k t) f
  unfolding begin_child allocate_dir
  begin_child-IsSched =
      aside-IsSched t v other free
        (λ a g o. ground (arith, aside.children, aside.anchor, aside.memory)) refl refl
        (λ u ne. ground arith)

  settle_child-IsSched : (ebp : ℕ) → IsSched (settle_child k t ebp) f
  unfolding settle_child name_child
  settle_child-IsSched ebp =
      aside-IsSched t v other free (λ a g o. refl) refl refl (λ u ne. ground arith)

  settle_child-current : (ebp : ℕ) → (settle_child k t ebp).current ≡ k.current
  unfolding settle_child name_child
  settle_child-current ebp = refl

  pub finish_child-IsSched : (ebp : ℕ) → IsSched (finish_child k t ebp) (forked f t)
  unfolding finish_child
  finish_child-IsSched ebp =
      make_ready-IsSched t
        (new_head-IsSched (thread_child_list_of t) (settle_child-IsSched ebp) aside.children
          (omega arith))
        task (λ h. other (h ∙ settle_child-current ebp)) (ground arith)

-- The number of the child.
pub finish_child-pid :
    (k : Kernel) (t ebp : ℕ) → ((finish_child k t ebp).tasks t).pid ≡ k.global_pid +ℤ pos 1
unfolding finish_child settle_child name_child
finish_child-pid k t ebp = ground arith

pub finish_child-current : (k : Kernel) (t ebp : ℕ) → (finish_child k t ebp).current ≡ k.current
unfolding finish_child settle_child name_child
finish_child-current k t ebp = refl
