-- ===== src/Interrupts/Tests.antt =====
-- A clock tick and a key press while one process waits for a key.
use so2_project.Common.{ℕ, ◌≡◌, refl, pos, List, [], ◌∷◌}
use so2_project.Kernel.{Kernel, list_of}
use so2_project.Interrupts.{char_at}
use so2_project.Samples.{two_more}

abbrev readers : List ℕ
readers = list_of two_more.current ∷ []

key_a : char_at (λ i. pos 0) 0x1e ≡ pos b'a'
key_a = refl
