-- ===== src/Processes/Answers.antt =====
-- What a call answers, and what it leaves of the queues.
use so2_project.Common.{ℕ, ◌≡◌, refl, ◌≢◌, ℤ, Option, none, some, Bool, true, false}
use so2_project.Links.Family.{Family, enqueue}
use so2_project.Utils.{Memory}
use so2_project.Kernel.{Kernel, freequeue, list_of}
use so2_project.Boot.{add_tail}
use so2_project.Sched.Inv.{IsTask, IsSched}
use so2_project.Sched.Aside.{give_back-IsSched}
use so2_project.Syscalls.{e_again}
use so2_project.Processes.{Outcome}

-- An answer with a number, after which the same process runs and the rings are `f`.
abbrev pub Answers : (ret : ℤ) (current : ℕ) → Family → Outcome → Type 0
Answers ret current f none = ⊥
Answers ret current f (some (v, k, ram)) = (v ≡ ret) × IsSched k f × (k.current ≡ current)

-- The rings with the task structure back at the end of freequeue.
abbrev pub returned : Family → ℕ → Family
returned f t = enqueue f (list_of t) freequeue

abbrev pub found : Option ℕ → Bool
found none = false
found (some g) = true

-- The task structure is given back, and nothing else happens to the queues.
pub give_back-Answers :
    {k : Kernel} {f : Family} (t : ℕ)
    → IsSched k f
    → IsTask t
    → t ≢ k.current
    → t ≢ k.idle_task
    → f.owner (list_of t) ≡ none
    → (ram : Memory)
    → Answers e_again k.current
        (returned f t)
        (some (e_again, add_tail k (list_of t) freequeue, ram))
give_back-Answers t v task other not_idle free ram =
    (refl, give_back-IsSched t v task free not_idle other, refl)
