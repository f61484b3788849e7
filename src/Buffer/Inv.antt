-- ===== src/Buffer/Inv.antt =====
-- The representation invariant of `struct circular_buffer`.
use so2_project.Common.{
  ◌+◌, ◌-◌, ◌%◌, ◌≤◌, ◌<◌, ◌≡◌, ℤ, pos, pos_part, neg_part, arith, length, length-set, ◌+ℤ◌,
}
use so2_project.Buffer.{
  CircularBuffer, buffer_size, init_circular_buffer, circular_buffer_pop, circular_buffer_push,
}

-- The indices lie in the array, and `tail` is the index just before `head + num_elem`, round the
-- array; only before the first push is it -1.
pub record IsValid (b : CircularBuffer) : Type 0 where
  pub storage : length b.buffer ≡ buffer_size
  pub head_nonneg : neg_part b.head ≡ 0
  pub head_in : pos_part b.head < buffer_size
  pub tail_low : neg_part b.tail ≤ 1
  pub tail_in : pos_part b.tail < buffer_size
  pub count_nonneg : neg_part b.num_elem ≡ 0
  pub count_in : pos_part b.num_elem ≤ buffer_size
  pub linked :
      (pos_part b.tail + 1 - neg_part b.tail) % buffer_size
      ≡ (pos_part b.head + pos_part b.num_elem) % buffer_size

pub init-IsValid : (b : CircularBuffer) → length b.buffer ≡ 3 → IsValid (init_circular_buffer b)
unfolding init_circular_buffer
init-IsValid b h = omega arith

pub push-IsValid : {b : CircularBuffer} (c : ℤ) → IsValid b → IsValid (circular_buffer_push b c).1
unfolding circular_buffer_push
push-IsValid {b} c v =
    ground (arith, length-set b.buffer (pos_part (b.tail +ℤ pos 1)) c, length-set b.buffer 0 c)

pub pop-IsValid : {b : CircularBuffer} → IsValid b → IsValid (circular_buffer_pop b).1
unfolding circular_buffer_pop
pop-IsValid v = ground arith
