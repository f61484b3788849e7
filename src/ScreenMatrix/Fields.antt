-- ===== src/ScreenMatrix/Fields.antt =====
-- The fields of a screen word.
use so2_project.Common.{ℕ, ◌+◌, ◌*◌, ◌%◌, ◌^◌, ◌<◌, ◌≡◌, ◌∙◌, arith}
use so2_project.Common.Bits.{
  bit_or_fields, bit_and_ff, bit_and_7fff, bit_and_f, bit_and_7, bit_and_shifted,
}
use so2_project.ScreenMatrix.{
  Matrix, screen_matrix_format, screen_matrix_get_fg_color, screen_matrix_get_bg_color,
  screen_matrix_get_char,
}

-- The word as arithmetic. The highest bit of the background's number is masked out.
pub format_sum :
    (c fg bg blnk : ℕ)
    → c < 256
    → fg < 16
    → bg < 16
    → blnk < 2
    → screen_matrix_format c fg bg blnk ≡ c + 256 * fg + 4096 * (bg % 8) + 32768 * blnk
unfolding screen_matrix_format
format_sum c fg bg blnk hc hf hb hk = ground (
  arith,
  bit_and_ff c,
  bit_or_fields 12 (fg * 2 ^ 8) bg (omega arith),
  bit_and_7fff (fg * 2 ^ 8 + 2 ^ 12 * bg),
  bit_or_fields 15 (fg * 2 ^ 8 + 2 ^ 12 * (bg % 8)) blnk (omega arith),
  bit_or_fields 8 c (fg + 16 * (bg % 8) + 128 * blnk) (omega arith),
)

module _ (c fg bg blnk : ℕ) (hc : c < 256) (hf : fg < 16) (hb : bg < 16) (hk : blnk < 2) where
  -- What screen_matrix_format puts into a cell the getters take out again: the character and the
  -- foreground color as they were, and of the background color the three low bits.
  pub get-format :
      (m : Matrix) (i j : ℕ)
      → m i j ≡ screen_matrix_format c fg bg blnk
      → (screen_matrix_get_char m i j ≡ c)
        × (screen_matrix_get_fg_color m i j ≡ fg)
        × (screen_matrix_get_bg_color m i j ≡ bg % 8)
  unfolding screen_matrix_get_char screen_matrix_get_fg_color screen_matrix_get_bg_color
  get-format m i j e =
      let w : m i j ≡ c + 256 * fg + 4096 * (bg % 8) + 32768 * blnk =
        e ∙ format_sum c fg bg blnk hc hf hb hk in
      rw w (
        ground (arith, bit_and_ff (c + 256 * fg + 4096 * (bg % 8) + 32768 * blnk)),
        ground (
          arith,
          bit_and_shifted 8 c (fg + 16 * (bg % 8) + 128 * blnk) 0xf (omega arith),
          bit_and_f (fg + 16 * (bg % 8) + 128 * blnk),
        ),
        ground (
          arith,
          bit_and_shifted 12 (c + 256 * fg) (bg % 8 + 8 * blnk) 0x7 (omega arith),
          bit_and_7 (bg % 8 + 8 * blnk),
        ),
      )
