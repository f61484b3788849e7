-- ===== src/ScreenMatrix.antt =====
-- screen_matrix.c and include/screen_matrix.h: the words of a text screen that a program composes
-- before it shows them. A matrix is a function of the row and the column; colors are their numbers
-- in include/colors.h, and a `char` is the byte that stands for it.
pub mod Fields
pub mod Compose
mod Tests
use so2_project.Common.{
  ℕ, ◌+◌, ◌*◌, ◌/◌, ◌%◌, ◌^◌, bit_and, bit_or, ◌==◌, if◌then◌else◌, update, for_range,
}

abbrev pub rows : ℕ
rows = 25

abbrev pub columns : ℕ
columns = 80

-- `screen_matrix`, `char_mat`, `clr_mat` and `blnk_mat`
abbrev pub Matrix : Type 0
Matrix = ℕ → ℕ → ℕ

-- `matrix[i][j] = w`
abbrev pub put : Matrix → (i j w : ℕ) → Matrix
put m i j w = update m i (update (m i) j w)

unfoldable pub screen_matrix_format : (c fg_clr bg_clr blnk : ℕ) → ℕ
screen_matrix_format c fg_clr bg_clr blnk =
    bit_or (bit_and c 0x00ff)
      (bit_or (bit_and (bit_or (fg_clr * 2 ^ 8) (bg_clr * 2 ^ 12)) 0x7fff) (blnk * 2 ^ 15))
    % 2 ^ 16

unfoldable pub screen_matrix_get_fg_color : Matrix → (x y : ℕ) → ℕ
screen_matrix_get_fg_color m x y = bit_and (m x y) 0x0f00 / 2 ^ 8

unfoldable pub screen_matrix_get_bg_color : Matrix → (x y : ℕ) → ℕ
screen_matrix_get_bg_color m x y = bit_and (m x y) 0x7000 / 2 ^ 12

unfoldable pub screen_matrix_get_char : Matrix → (x y : ℕ) → ℕ
screen_matrix_get_char m x y = bit_and (m x y) 0x00ff

-- `for (i …) for (j …) sm[i][j] = …`
abbrev pub each_entry : (ℕ → ℕ → ℕ) → Matrix → Matrix
each_entry g sm = for_range rows 0 (λ i m. for_range columns 0 (λ j u. put u i j (g i j)) m) sm

unfoldable pub screen_matrix_compose : (sm chm fgclm bgclm bm : Matrix) → Matrix
unfolding screen_matrix_format
screen_matrix_compose sm chm fgclm bgclm bm =
    each_entry (λ i j. screen_matrix_format (chm i j) (fgclm i j) (bgclm i j) (bm i j)) sm

abbrev pub char_word : (c fg_clr bg_clr : ℕ) → ℕ
char_word c fg_clr bg_clr =
    if c == 0
    then 0
    else bit_or (bit_and c 0x00ff) (bit_and (bit_or (fg_clr * 2 ^ 8) (bg_clr * 2 ^ 12)) 0x7fff)
      % 2 ^ 16

unfoldable pub screen_matrix_compose_char : (sm chm : Matrix) → (fg_clr bg_clr : ℕ) → Matrix
screen_matrix_compose_char sm chm fg_clr bg_clr =
    each_entry (λ i j. char_word (chm i j) fg_clr bg_clr) sm

unfoldable pub screen_matrix_init : Matrix → Matrix
screen_matrix_init sm = each_entry (λ i j. 0) sm
