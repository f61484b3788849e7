-- ===== src/Interrupts/Timeout.antt =====
-- key_timout_system: the clock counts down the timeouts of those who wait for a key.
use so2_project.Common.{
  ℕ, ◌≡◌, ◌≢◌, pos, ◌-ℤ◌, ◌==ℤ◌, Option, some, Bool, List, [], ◌∷◌, if◌then◌else◌,
}
use so2_project.Links.Family.{Family}
use so2_project.Kernel.{Kernel, list_head_to_task_struct, set_task}
use so2_project.Sched.Inv.{IsSched}
use so2_project.Interrupts.Wakeup.{woken}

-- The task of the entry is in its last tick.
abbrev pub timed_out : Kernel → ℕ → Bool
timed_out k e = (k.tasks (list_head_to_task_struct e)).key_timeout ==ℤ pos 1

-- The entries that are due go to the end of the ready queue, in order.
unfoldable pub due_woken : (ℕ → Bool) → List ℕ → Family → Family
due_woken due [] f = f
due_woken due (e ∷ r) f = due_woken due r (if due e then woken f e else f)

-- The kernel with one tick less for a task.
abbrev ticked : Kernel → ℕ → Kernel
ticked k t = set_task k t (record (k.tasks t) { key_timeout = (k.tasks t).key_timeout -ℤ pos 1 })

-- What one round leaves: the rings, the running task and the timeouts of the other tasks.
record Round (k k' : Kernel) (f' : Family) (e : ℕ) : Type 0 where
  sched : IsSched k' f'
  current : k'.current ≡ k.current
  timeouts :
      (u : ℕ) → u ≢ list_head_to_task_struct e → (k'.tasks u).key_timeout ≡ (k.tasks u).key_timeout

-- What the loop leaves, from a place in the queue on.
record Left (k : Kernel) (f' : Family) (result : Option Kernel) : Type 0 where
  last : Kernel
  returns : result ≡ some last
  sched : IsSched last f'
  current : last.current ≡ k.current
