-- ===== src/Syscalls/Keys.antt =====
-- sys_getKey: who waits, and what the call answers.
use so2_project.Common.{
  ◌≡◌, refl, ◌≢◌, inr, ℤ, pos, negsuc, ◌==ℤ◌, Bool, not, ◌&&◌, arith, if◌then◌else◌,
}
use so2_project.Links.Family.{Family, enqueue}
use so2_project.CharQueue
use so2_project.Kernel.{Kernel, get_key_blocked, list_of}
use so2_project.Sched.Inv.{IsSched, next_task}
use so2_project.Interrupts.Wakeup.{IsSched-frame}
use so2_project.Syscalls.{e_again, e_fault, Entered, fails, goes_on, waits, ask, wait_key}
use so2_project.Syscalls.Block.{block-IsSched}

pub wait_key-IsSched :
    {k : Kernel} {f : Family}
    → IsSched k f
    → k.current ≢ k.idle_task
    → let next = next_task k.idle_task (enqueue f (list_of k.current) get_key_blocked) in
      IsSched (wait_key k) next.1 × ((wait_key k).current ≡ next.0)
unfolding wait_key
wait_key-IsSched v ne = block-IsSched get_key_blocked v (inr (inr refl, ne))

pub ask-IsSched : {k : Kernel} {f : Family} (timeout : ℤ) → IsSched k f → IsSched (ask k timeout) f
ask-IsSched timeout v = IsSched-frame v refl refl refl (λ t. ground arith)

-- What the first part of the call leaves, whether or not access is allowed and the call has to wait.
abbrev pub Asked : Kernel → Family → ℤ → (allowed must : Bool) → Entered × Kernel → Type 0
Asked k f timeout allowed must r =
    let next = next_task k.idle_task (enqueue f (list_of k.current) get_key_blocked) in
    (r.0 ≡ (if not allowed then fails e_fault else if must then waits else goes_on))
    × IsSched r.1 (if allowed && must then next.1 else f)
    × (r.1.current ≡ (if allowed && must then next.0 else k.current))
    × ((r.1.tasks k.current).key_timeout
        ≡ (if allowed then timeout else (k.tasks k.current).key_timeout))

-- What a process that is served answers: the oldest character is taken, and -1 stands for none.
abbrev pub answer : CharQueue.CharQueue → ℤ
answer q = if (CharQueue.pop q).0 ==ℤ negsuc 0 then e_again else pos 0
