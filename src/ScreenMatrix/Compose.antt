-- ===== src/ScreenMatrix/Compose.antt =====
-- The loops over all entries of a matrix.
use so2_project.Common.{
  ℕ, zero, suc, ◌+◌, ◌≡◌, arith, ltb, leb, ◌==◌, ◌&&◌, if◌then◌else◌, for_range, ◌∙◌,
  for_range-zero, for_range-suc,
}
use so2_project.ScreenMatrix.{
  Matrix, put, each_entry, rows, columns, screen_matrix_format, screen_matrix_compose, char_word,
  screen_matrix_compose_char, screen_matrix_init,
}

module _ (g : ℕ → ℕ → ℕ) (r k : ℕ) where
  row :
      (n j i : ℕ) (m : Matrix)
      → for_range n j (λ j u. put u i j (g i j)) m r k
        ≡ (if r == i && (leb j k && ltb k (j + n)) then g r k else m r k)
  row zero j i m = rw for_range-zero (ground arith)
  row (suc n) j i m = rw for_range-suc (row n (j + 1) i (put m i j (g i j)) ∙ ground arith)

  matrix_rows :
      (n i : ℕ) (m : Matrix)
      → for_range n i (λ i m. for_range columns 0 (λ j u. put u i j (g i j)) m) m r k
        ≡ (if leb i r && ltb r (i + n) && ltb k columns then g r k else m r k)
  matrix_rows zero i m = rw for_range-zero (ground arith)
  matrix_rows (suc n) i m = rw for_range-suc (
      matrix_rows n (i + 1) (for_range columns 0 (λ j u. put u i j (g i j)) m)
      ∙ ground (arith, row columns 0 i m))

  each_entry_lem :
      (m : Matrix) → each_entry g m r k ≡ (if ltb r rows && ltb k columns then g r k else m r k)
  each_entry_lem m = matrix_rows rows 0 m ∙ ground arith

-- screen_matrix_compose, screen_matrix_compose_char and screen_matrix_init write each of the 25 by 80
-- entries from the entries of the given matrices at the same place, and nothing else.
pub matrix_loops :
    (sm chm fgclm bgclm bm : Matrix) (fg_clr bg_clr r k : ℕ)
    → (screen_matrix_compose sm chm fgclm bgclm bm r k ≡ (
        if ltb r rows && ltb k columns
        then screen_matrix_format (chm r k) (fgclm r k) (bgclm r k) (bm r k)
        else sm r k))
      × (screen_matrix_compose_char sm chm fg_clr bg_clr r k
          ≡ (if ltb r rows && ltb k columns then char_word (chm r k) fg_clr bg_clr else sm r k))
      × (screen_matrix_init sm r k ≡ (if ltb r rows && ltb k columns then 0 else sm r k))
unfolding screen_matrix_compose screen_matrix_compose_char screen_matrix_init
matrix_loops sm chm fgclm bgclm bm fg_clr bg_clr r k = (
  each_entry_lem (λ i j. screen_matrix_format (chm i j) (fgclm i j) (bgclm i j) (bm i j)) r k sm,
  each_entry_lem (λ i j. char_word (chm i j) fg_clr bg_clr) r k sm,
  each_entry_lem (λ i j. 0) r k sm,
)
