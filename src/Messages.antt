-- ===== src/Messages.antt =====
-- The texts that the kernel prints, without their NUL.
use so2_project.Common.{ℕ, List, [], ◌∷◌}

-- `Kernel Loaded!    `
abbrev pub kernel_loaded : List ℕ
kernel_loaded =
    b'K' ∷ b'e' ∷ b'r' ∷ b'n' ∷ b'e' ∷ b'l' ∷ b' ' ∷ b'L' ∷ b'o' ∷ b'a' ∷ b'd' ∷ b'e' ∷ b'd' ∷ b'!'
    ∷ b' ' ∷ b' ' ∷ b' ' ∷ b' ' ∷ []

-- `Entering user mode...`
abbrev pub entering_user_mode : List ℕ
entering_user_mode =
    b'E' ∷ b'n' ∷ b't' ∷ b'e' ∷ b'r' ∷ b'i' ∷ b'n' ∷ b'g' ∷ b' ' ∷ b'u' ∷ b's' ∷ b'e' ∷ b'r' ∷ b' '
    ∷ b'm' ∷ b'o' ∷ b'd' ∷ b'e' ∷ b'.' ∷ b'.' ∷ b'.' ∷ []

-- `semwait trobat\n`
abbrev pub wait_found : List ℕ
wait_found =
    b's' ∷ b'e' ∷ b'm' ∷ b'w' ∷ b'a' ∷ b'i' ∷ b't' ∷ b' ' ∷ b't' ∷ b'r' ∷ b'o' ∷ b'b' ∷ b'a' ∷ b't'
    ∷ 10 ∷ []

-- `bloqueado\n`
abbrev pub wait_blocked : List ℕ
wait_blocked = b'b' ∷ b'l' ∷ b'o' ∷ b'q' ∷ b'u' ∷ b'e' ∷ b'a' ∷ b'd' ∷ b'o' ∷ 10 ∷ []

-- `sempost trobat\n`
abbrev pub signal_found : List ℕ
signal_found =
    b's' ∷ b'e' ∷ b'm' ∷ b'p' ∷ b'o' ∷ b's' ∷ b't' ∷ b' ' ∷ b't' ∷ b'r' ∷ b'o' ∷ b'b' ∷ b'a' ∷ b't'
    ∷ 10 ∷ []

-- `desbloqueando\n`
abbrev pub signal_unblocks : List ℕ
signal_unblocks =
    b'd' ∷ b'e' ∷ b's' ∷ b'b' ∷ b'l' ∷ b'o' ∷ b'q' ∷ b'u' ∷ b'e' ∷ b'a' ∷ b'n' ∷ b'd' ∷ b'o' ∷ 10
    ∷ []

-- `Eliminant memoria\n`
abbrev pub removing_memory : List ℕ
removing_memory =
    b'E' ∷ b'l' ∷ b'i' ∷ b'm' ∷ b'i' ∷ b'n' ∷ b'a' ∷ b'n' ∷ b't' ∷ b' ' ∷ b'm' ∷ b'e' ∷ b'm' ∷ b'o'
    ∷ b'r' ∷ b'i' ∷ b'a' ∷ 10 ∷ []

-- `\nProcess generates a PAGE FAULT exception at EIP: 0x`
abbrev pub page_fault : List ℕ
page_fault =
    10 ∷ b'P' ∷ b'r' ∷ b'o' ∷ b'c' ∷ b'e' ∷ b's' ∷ b's' ∷ b' ' ∷ b'g' ∷ b'e' ∷ b'n' ∷ b'e' ∷ b'r'
    ∷ b'a' ∷ b't' ∷ b'e' ∷ b's' ∷ b' ' ∷ b'a' ∷ b' ' ∷ b'P' ∷ b'A' ∷ b'G' ∷ b'E' ∷ b' ' ∷ b'F'
    ∷ b'A' ∷ b'U' ∷ b'L' ∷ b'T' ∷ b' ' ∷ b'e' ∷ b'x' ∷ b'c' ∷ b'e' ∷ b'p' ∷ b't' ∷ b'i' ∷ b'o'
    ∷ b'n' ∷ b' ' ∷ b'a' ∷ b't' ∷ b' ' ∷ b'E' ∷ b'I' ∷ b'P' ∷ b':' ∷ b' ' ∷ b'0' ∷ b'x' ∷ []
