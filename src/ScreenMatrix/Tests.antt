-- ===== src/ScreenMatrix/Tests.antt =====
-- The theorems about screen matrices at concrete words and matrices.
use so2_project.Common.{◌%◌, ◌≡◌, refl, arith}
use so2_project.ScreenMatrix.{
  Matrix, screen_matrix_format, screen_matrix_get_char, screen_matrix_get_fg_color,
  screen_matrix_get_bg_color,
}
use so2_project.ScreenMatrix.Fields.{get-format}

-- An `A` in yellow on white, blinking.
abbrev letters : Matrix
letters i j = screen_matrix_format 65 14 15 1

get-format_example :
    (screen_matrix_get_char letters 2 3 ≡ 65)
    × (screen_matrix_get_fg_color letters 2 3 ≡ 14)
    × (screen_matrix_get_bg_color letters 2 3 ≡ 15 % 8)
get-format_example =
    get-format 65 14 15 1 (omega arith) (omega arith) (omega arith) (omega arith) letters 2 3 refl
