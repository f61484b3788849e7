-- ===== src/Screen.antt =====
-- io.c: the text screen of 25 rows and 80 columns, a word each, and the cursor. A character is the
-- byte that it is stored as. The debug port 0xe9 to which printc copies its argument is left out.
pub mod Cursor
pub mod Fill
mod Tests
use so2_project.Common.{
  ℕ, ◌+◌, ◌-◌, ◌*◌, ◌/◌, ◌%◌, ◌^◌, ℤ, pos, pos_part, bit_and, bit_or, Bool, List, [], ◌∷◌, ltb, leb,
  ◌==◌, if◌then◌else◌, update, for_range,
}

abbrev pub num_columns : ℕ
num_columns = 80

abbrev pub num_rows : ℕ
num_rows = 25

-- The bytes `x` and `y`, and the words from 0xb8000 on.
pub record Screen : Type 0 where
  pub x : ℕ
  pub y : ℕ
  pub cells : ℕ → ℕ

abbrev pub newline : ℕ
newline = 10

-- The cell where the cursor stands.
abbrev pub cursor : Screen → ℕ
cursor s = s.y * num_columns + s.x

-- What follows the write of a cell: `if (++x >= NUM_COLUMNS) …`, over a byte.
abbrev pub step_right : Screen → Screen
step_right s =
    let x' = (s.x + 1) % 2 ^ 8 in
    if leb num_columns x' then record s { x = 0; y = (s.y + 1) % num_rows } else record s { x = x' }

abbrev pub put_word : Screen → ℕ → Screen
put_word s ch = step_right (record s { cells = update s.cells (cursor s) ch })

unfoldable pub printc : Screen → ℕ → Screen
printc s c =
    if c == newline
    then record s { x = 0; y = (s.y + 1) % num_rows }
    else put_word s (bit_or (bit_and c 0x00ff) 0x0200)

-- A word of the screen: the character, the two colors and the blink bit.
abbrev pub color_word : (c char_col back_col blinking : ℕ) → ℕ
color_word c char_col back_col blinking =
    bit_or (bit_and c 0x00ff)
      (bit_or (bit_and (bit_or (char_col * 2 ^ 8) (back_col * 2 ^ 12)) 0x7fff) (blinking * 2 ^ 15))
    % 2 ^ 16

unfoldable pub print_color : Screen → (c char_col back_col blinking : ℕ) → Screen
print_color s c char_col back_col blinking =
    if c == newline
    then record s { x = 0; y = (s.y + 1) % num_rows }
    else put_word s (color_word c char_col back_col blinking)

unfoldable pub printc_xy : Screen → (mx my c : ℕ) → Screen
unfolding printc
printc_xy s mx my c =
    let cx = s.x in
    let cy = s.y in let s' = printc (record s { x = mx; y = my }) c in record s' { x = cx; y = cy }

-- The text has the function's name as the source has it, with the same body.
unfoldable pub printc_xy_color : Screen → (mx my c : ℕ) → Screen
unfolding printc
printc_xy_color s mx my c =
    let cx = s.x in
    let cy = s.y in let s' = printc (record s { x = mx; y = my }) c in record s' { x = cx; y = cy }

abbrev pub light_gray : ℕ
light_gray = 7

abbrev pub green : ℕ
green = 2

-- The list holds the characters before the NUL.
unfoldable pub printk : Screen → List ℕ → Screen
unfolding print_color
printk s [] = s
printk s (c ∷ cs) = printk (print_color s c light_gray green 0) cs

-- devices.c: `buffer` holds the bytes from the start of the buffer on.
unfoldable pub sys_write_console : Screen → (ℕ → ℕ) → ℤ → ℤ × Screen
unfolding printc
sys_write_console s buffer size = (size, for_range (pos_part size) 0 (λ i t. printc t (buffer i)) s)

-- `for (i …) for (j …) screen[j * NUM_COLUMNS + i] = …`, where the new word may depend on the old.
abbrev pub each_cell : (ℕ → ℕ → ℕ) → (ℕ → ℕ) → ℕ → ℕ
each_cell g cells =
    for_range num_columns 0
      (λ i t.
        for_range num_rows 0
          (λ j u.
            update u (j * num_columns + i) (g (j * num_columns + i) (u (j * num_columns + i))))
          t)
      cells

unfoldable pub clear_screen : Screen → Screen
clear_screen s = record s { cells = each_cell (λ k w. 0x00) s.cells }

-- `matrix` is read row by row, as the array of arrays is laid out.
unfoldable pub clear_paint_screen : Screen → (ℕ → ℕ → ℕ) → Screen
clear_paint_screen s matrix = record s {
  cells = each_cell (λ k w. matrix (k / num_columns) (k % num_columns)) s.cells;
}

-- The arguments are truncated to bytes.
unfoldable pub set_xy : Screen → (x_n y_n : ℕ) → Screen
set_xy s x_n y_n = record s { x = x_n % 2 ^ 8; y = y_n % 2 ^ 8 }

abbrev pub recolor : (bg fg w : ℕ) → ℕ
recolor bg fg w =
    let colors = bit_and (bit_or (bg * 2 ^ 8) (fg * 2 ^ 12)) 0x7fff in
    if w == 0 then bit_or (bit_and 0 0x80ff) colors else bit_or (bit_and w 0x80ff) colors

unfoldable pub change_screen_colors : Screen → (bg fg : ℕ) → Screen
change_screen_colors s bg fg = record s {
  cells = each_cell (λ k w. recolor bg fg w % 2 ^ 16) s.cells;
}
