-- ===== src/Screen/Tests.antt =====
-- Runs of the screen, and the theorems about it at concrete screens.
use so2_project.Common.{if◌then◌else◌, ◌==◌, not, ◌&&◌, ◌*◌, ℕ, ◌+◌, ◌%◌, ◌<◌, ◌≡◌, refl, arith}
use so2_project.Screen.{Screen, cursor, newline, printc, set_xy}
use so2_project.Screen.Cursor.{IsOnScreen, plain_word, printc_lem}

abbrev corner : Screen
corner = record { x = 79; y = 24; cells = λ k. 0 }

wraps : cursor (printc corner 65) ≡ 0
unfolding printc
wraps = refl

written : (printc corner 65).cells 1999 ≡ 0x241
unfolding printc
written = refl

-- The cursor that gotoXY(80, 25) sets stands outside, and printc writes there.
off_screen : (printc (set_xy corner 80 25) 65).cells 2080 ≡ 0x241
unfolding printc set_xy
off_screen = refl

printc_lem_example :
    IsOnScreen (printc corner 65)
    × (1999 < 2000)
    × (cursor (printc corner 65)
        ≡ (if 65 == newline then (24 + 1) % 25 * 80 else (1999 + 1) % 2000))
    × ((k : ℕ)
        → (printc corner 65).cells k
          ≡ (if not (65 == newline) && k == 1999 then plain_word 65 else 0))
printc_lem_example = printc_lem {s = corner} 65 (omega arith)
