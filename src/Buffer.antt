-- ===== src/Buffer.antt =====
-- circular_buffer.c and include/circular_buffer.h: the keyboard's ring of characters. A `char` is
-- the integer that it stands for, so that the -1 of an empty buffer is `negsuc 0`.
pub mod Inv
pub mod Refine
mod Tests
use so2_project.Common.{
  ℕ, ◌-◌, ℤ, pos, negsuc, pos_part, ◌+ℤ◌, ◌-ℤ◌, ltb_ℤ, leb_ℤ, ◌==ℤ◌, Bool, not, List, [], ◌∷◌,
  if◌then◌else◌, get_or, set,
}
use so2_project.CharQueue.{Op, put, get}

abbrev pub buffer_size : ℕ
buffer_size = 3

-- `struct circular_buffer`
pub record CircularBuffer : Type 0 where
  pub head : ℤ
  pub tail : ℤ
  pub num_elem : ℤ
  pub buffer : List ℤ

-- `INIT_CIRCULAR_BUFFER`
unfoldable pub init_circular_buffer : CircularBuffer → CircularBuffer
init_circular_buffer b = record b { head = pos 0; tail = negsuc 0; num_elem = pos 0 }

unfoldable pub circular_buffer_full : CircularBuffer → Bool
circular_buffer_full b = leb_ℤ (pos buffer_size) b.num_elem

unfoldable pub circular_buffer_empty : CircularBuffer → Bool
circular_buffer_empty b = b.num_elem ==ℤ pos 0

-- `buffer[i]`; the invariant of Inv keeps `i` inside the array.
abbrev pub read : List ℤ → ℤ → ℤ
read cells i = get_or cells (pos_part i) (pos 0)

abbrev pub write : List ℤ → ℤ → ℤ → List ℤ
write cells i c = set cells (pos_part i) c

unfoldable pub circular_buffer_pop : CircularBuffer → ℤ × CircularBuffer
unfolding circular_buffer_empty
circular_buffer_pop b =
    if not (circular_buffer_empty b)
    then (
      read b.buffer b.head,
      record b {
        head = if ltb_ℤ b.head (pos (buffer_size - 1)) then b.head +ℤ pos 1 else pos 0;
        num_elem = b.num_elem -ℤ pos 1;
      },
    )
    else (negsuc 0, b)

unfoldable pub circular_buffer_push : CircularBuffer → ℤ → ℤ × CircularBuffer
unfolding circular_buffer_full
circular_buffer_push b c =
    if not (circular_buffer_full b)
    then (
      pos 0,
      (if ltb_ℤ b.tail (pos (buffer_size - 1))
          then record b {
            buffer = write b.buffer (b.tail +ℤ pos 1) c;
            tail = b.tail +ℤ pos 1;
            num_elem = b.num_elem +ℤ pos 1;
          }
          else record b {
            tail = pos 0;
            buffer = write b.buffer (pos 0) c;
            num_elem = b.num_elem +ℤ pos 1;
          }),
    )
    else (negsuc 0, b)

-- A client's calls in order, with what each returns.
pub run : CircularBuffer → List Op → List ℤ
unfolding circular_buffer_push circular_buffer_pop
run b [] = []
run b (put c ∷ ops) = let (r, b') = circular_buffer_push b c in r ∷ run b' ops
run b (get ∷ ops) = let (r, b') = circular_buffer_pop b in r ∷ run b' ops
