-- ===== src/Screen/Fill.antt =====
-- The loops over all cells.
use so2_project.Common.{
  ℕ, zero, suc, ◌+◌, ◌*◌, ◌/◌, ◌%◌, ◌^◌, ◌≤◌, ◌<◌, ◌≡◌, arith, ltb, leb, ◌==◌, ◌&&◌, if◌then◌else◌,
  update, for_range, for_range-zero, for_range-suc, ◌∙◌,
}
use so2_project.Screen.{
  Screen, each_cell, clear_screen, clear_paint_screen, change_screen_colors, recolor,
}

-- One column, from row `j` on.
column :
    (g : ℕ → ℕ → ℕ) (n j i : ℕ) (f : ℕ → ℕ) (k : ℕ)
    → i < 80
    → for_range n j (λ j u. update u (j * 80 + i) (g (j * 80 + i) (u (j * 80 + i)))) f k
      ≡ (if k % 80 == i && (leb j (k / 80) && ltb (k / 80) (j + n)) then g k (f k) else f k)
unfolding for_range
column g zero j i f k h = ground arith
column g (suc n) j i f k h =
    ground (arith, column g n (j + 1) i (update f (j * 80 + i) (g (j * 80 + i) (f (j * 80 + i)))) k)

columns :
    (g : ℕ → ℕ → ℕ) (n i : ℕ) (f : ℕ → ℕ) (k : ℕ)
    → i + n ≤ 80
    → for_range n i
        (λ i t. for_range 25 0 (λ j u. update u (j * 80 + i) (g (j * 80 + i) (u (j * 80 + i)))) t)
        f
        k
      ≡ (if leb i (k % 80) && ltb (k % 80) (i + n) && ltb (k / 80) 25 then g k (f k) else f k)
columns g zero i f k h = rw for_range-zero (ground arith)
columns g (suc n) i f k h = rw for_range-suc (
    columns g n (i + 1)
      (for_range 25 0 (λ j u. update u (j * 80 + i) (g (j * 80 + i) (u (j * 80 + i)))) f) k
      (omega arith)
    ∙ ground (arith, column g 25 0 i f k (omega arith)))

each_cell_lem :
    (g : ℕ → ℕ → ℕ) (f : ℕ → ℕ) (k : ℕ) → each_cell g f k ≡ (if ltb k 2000 then g k (f k) else f k)
each_cell_lem g f k = ground (arith, columns g 80 0 f k (omega arith))

-- The three loops over rows and columns reach every cell of the screen, once, and no word outside
-- it: clear_screen leaves zero, clear_paint_screen the word of the matrix at the row and the column,
-- and change_screen_colors the recolored word, each in the cells 0 to 1999 and nowhere else. The
-- cursor stays.
pub screen_loops :
    (s : Screen) (matrix : ℕ → ℕ → ℕ) (bg fg k : ℕ)
    → ((clear_screen s).cells k ≡ (if ltb k 2000 then 0 else s.cells k))
      × ((clear_paint_screen s matrix).cells k
          ≡ (if ltb k 2000 then matrix (k / 80) (k % 80) else s.cells k))
      × ((change_screen_colors s bg fg).cells k
          ≡ (if ltb k 2000 then recolor bg fg (s.cells k) % 2 ^ 16 else s.cells k))
unfolding clear_screen clear_paint_screen change_screen_colors
screen_loops s matrix bg fg k = (
  each_cell_lem (λ k w. 0) s.cells k,
  each_cell_lem (λ k w. matrix (k / 80) (k % 80)) s.cells k,
  each_cell_lem (λ k w. recolor bg fg w % 2 ^ 16) s.cells k,
)
