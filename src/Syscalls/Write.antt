-- ===== src/Syscalls/Write.antt =====
-- sys_write shows what the user's buffer holds, although it goes through a buffer of 512 bytes.
use so2_project.Common.{
  ℕ, ◌+◌, ◌-◌, ◌≤◌, ◌≡◌, ℤ, pos, pos_part, ltb_ℤ, ◌==ℤ◌, not, if◌then◌else◌, for_range,
}
use so2_project.Address.{l_user_start}
use so2_project.Screen.{Screen, printc}
use so2_project.Utils.{Memory, access_ok, verify_read}
use so2_project.Syscalls.{e_badf, e_inval, e_fault, tam_buffer}

-- What a screen shows after `n` bytes from `buffer` on.
unfoldable pub show : Memory → (buffer n : ℕ) → Screen → Screen
show m buffer n s = for_range n 0 (λ i t. printc t (m (buffer + i))) s

-- The user's pages hold what they held at first.
abbrev pub SameUser : Memory → Memory → Type 0
SameUser m m₀ = (a : ℕ) → l_user_start ≤ a → m a ≡ m₀ a

-- What the loop leaves: at most a buffer's length, and a screen that shows the rest.
record Chunks (m₀ : Memory) (s : Screen) (buffer left : ℕ) (r : Screen × Memory × ℕ × ℕ)
    : Type 0 where
  same : SameUser r.1 m₀
  place : r.2 + r.3 ≡ buffer + left
  begun : buffer ≤ r.2
  few : r.3 ≤ tam_buffer
  shown : r.0 ≡ show m₀ buffer (r.2 - buffer) s

-- What the call answers, and the screen that it leaves.
abbrev pub written : Screen → Memory → (fd : ℤ) → (buffer : ℕ) → (nbytes : ℤ) → ℤ × Screen
written s m fd buffer nbytes =
    if not (fd ==ℤ pos 1)
    then (e_badf, s)
    else if ltb_ℤ nbytes (pos 0)
    then (e_inval, s)
    else if not (access_ok verify_read buffer (pos_part nbytes))
    then (e_fault, s)
    else (nbytes, show m buffer (pos_part nbytes) s)
