-- ===== src/Screen/Cursor.antt =====
-- Where the cursor stands, and what printing writes.
use so2_project.Common.{
  ℕ, ◌+◌, ◌*◌, ◌%◌, ◌<◌, ◌≡◌, refl, ◌∙◌, ◌≢◌, pos, arith, for_range_inv, ◌==◌, ==-ne, not, ◌&&◌,
  if◌then◌else◌, bit_and, bit_or,
}
use so2_project.Screen.{
  Screen, num_columns, num_rows, newline, cursor, put_word, printc, sys_write_console,
}

-- The cursor stands on the screen.
pub record IsOnScreen (s : Screen) : Type 0 where
  pub column : s.x < num_columns
  pub row : s.y < num_rows

abbrev pub screen_size : ℕ
screen_size = num_rows * num_columns

pub put_word-cursor :
    {s : Screen} (ch : ℕ)
    → IsOnScreen s
    → IsOnScreen (put_word s ch) × (cursor (put_word s ch) ≡ (cursor s + 1) % screen_size)
put_word-cursor ch v = ground arith

-- The word of a character in the default colors.
abbrev pub plain_word : ℕ → ℕ
plain_word c = bit_or (bit_and c 0x00ff) 0x0200

-- With the cursor on the screen, printc keeps it there. A newline fills no cell and moves the cursor to the
-- start of the next row, from the last row to the first; any other character fills the cell at the
-- cursor, which lies on the screen, and no other, and moves the cursor to the next cell, from the last
-- one to the first.
pub printc_lem :
    {s : Screen} (c : ℕ)
    → IsOnScreen s
    → IsOnScreen (printc s c)
      × (cursor s < screen_size)
      × (cursor (printc s c) ≡ (
          if c == newline
          then (s.y + 1) % num_rows * num_columns
          else (cursor s + 1) % screen_size))
      × ((k : ℕ)
          → (printc s c).cells k
            ≡ (if not (c == newline) && k == cursor s then plain_word c else s.cells k))
unfolding printc
printc_lem {s} c v = (ground arith, omega arith, ground arith, λ k. ground arith)

-- With the cursor on the screen, sys_write_console of `n` characters without a newline returns `n` and moves
-- the cursor by `n` cells, round the screen.
pub sys_write_console-cursor :
    (s : Screen) (buffer : ℕ → ℕ) (n : ℕ)
    → IsOnScreen s
    → ((i : ℕ) → i < n → buffer i ≢ newline)
    → let (r, t) = sys_write_console s buffer (pos n) in
      (r ≡ pos n) × IsOnScreen t × (cursor t ≡ (cursor s + n) % screen_size)
unfolding sys_write_console
sys_write_console-cursor s buffer n v plain =
    let (a, b) =
      for_range_inv (λ i (t : Screen). IsOnScreen t × (cursor t ≡ (cursor s + i) % screen_size)) _ n
        0 n s
        (λ i t lo hi (w, e).
          let (w', _, next, _) = printc_lem (buffer i) w in
          (w', next ∙ rw (==-ne (buffer i) newline (plain i hi)) (step (cursor t) (cursor s) i e)))
        (omega arith) (v, omega arith) in
    (refl, a, b)
  where
    step :
        (p c i : ℕ)
        → p ≡ (c + i) % screen_size
        → (p + 1) % screen_size ≡ (c + (i + 1)) % screen_size
    step p c i e = omega arith
