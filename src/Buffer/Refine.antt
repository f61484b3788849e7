-- ===== src/Buffer/Refine.antt =====
-- A valid circular buffer behaves as the queue of the characters that it holds.
use so2_project.Common.{
  ℕ, zero, suc, ◌+◌, ◌-◌, ◌%◌, ◌<◌, ◌≡◌, refl, ◌≢◌, ap, ℤ, pos, pos_part, ◌+ℤ◌, List, [], ◌∷◌, ◌++◌,
  arith, length, get_or, set, get_or-set_self, get_or-set_ne,
}
use so2_project.CharQueue
use so2_project.CharQueue.{CharQueue, Op, put, get}
use so2_project.Buffer.{CircularBuffer, buffer_size, circular_buffer_pop, circular_buffer_push, run}
use so2_project.Buffer.Inv.{IsValid, push-IsValid, pop-IsValid}

-- The `n` characters from index `h` on, round the array.
abbrev pub window : List ℤ → ℕ → ℕ → CharQueue
window cells h zero = []
window cells h (suc n) = get_or cells h (pos 0) ∷ window cells ((h + 1) % buffer_size) n

-- The queue that a buffer stands for.
abbrev pub contents : CircularBuffer → CharQueue
contents b = window b.buffer (pos_part b.head) (pos_part b.num_elem)

length-window : (cells : List ℤ) (h n : ℕ) → length (window cells h n) ≡ n
length-window cells h zero = refl
length-window cells h (suc n) = ap suc (length-window cells ((h + 1) % buffer_size) n)

-- A write just past a window extends it.
window-set :
    (cells : List ℤ) (h n i : ℕ) (c : ℤ)
    → length cells ≡ buffer_size
    → h < buffer_size
    → n < buffer_size
    → i ≡ (h + n) % buffer_size
    → window (set cells i c) h (suc n) ≡ window cells h n ++ (c ∷ [])
window-set cells h zero i c len hh hn e =
    let e' : i ≡ h = omega arith in rw (e', get_or-set_self cells h c (pos 0) (omega arith))
window-set cells h (suc n) i c len hh hn e = ground (
  arith,
  get_or-set_ne cells {i = i} {j = h} c (pos 0) (omega arith),
  window-set cells ((h + 1) % buffer_size) n i c len (omega arith) (omega arith) (omega arith),
)

-- A push does to the contents what the queue does, and answers what it answers.
pub push_refines :
    {b : CircularBuffer} (c : ℤ)
    → IsValid b
    → let (r, b') = circular_buffer_push b c in
      (r, contents b') ≡ CharQueue.push buffer_size (contents b) c
unfolding circular_buffer_push CharQueue.push
push_refines {b} c v = ground (
  arith,
  length-window b.buffer (pos_part b.head) (pos_part b.num_elem),
  window-set b.buffer (pos_part b.head) (pos_part b.num_elem) (pos_part (b.tail +ℤ pos 1)) c,
  window-set b.buffer (pos_part b.head) (pos_part b.num_elem) 0 c,
)

window-pop :
    (cells : List ℤ) (h n : ℕ)
    → n ≢ 0
    → window cells h n ≡ get_or cells h (pos 0) ∷ window cells ((h + 1) % buffer_size) (n - 1)
window-pop cells h zero p = absurd (p refl)
window-pop cells h (suc n) p = ap (λ k. window cells h (suc k)) (omega arith)

pub pop_refines :
    {b : CircularBuffer}
    → IsValid b
    → let (c, b') = circular_buffer_pop b in (c, contents b') ≡ CharQueue.pop (contents b)
unfolding circular_buffer_pop CharQueue.pop
pop_refines {b} v = ground (arith, window-pop b.buffer (pos_part b.head) (pos_part b.num_elem))

-- No sequence of pushes and pops tells a valid circular buffer from the queue of its contents that
-- holds at most three characters: every call returns what the queue returns.
pub run_refines :
    (ops : List Op) {b : CircularBuffer}
    → IsValid b
    → run b ops ≡ CharQueue.run buffer_size (contents b) ops
unfolding run CharQueue.run
run_refines [] v = refl
run_refines (put c ∷ ops) v = rw (run_refines ops (push-IsValid c v), ← push_refines c v)
run_refines (get ∷ ops) v = rw (run_refines ops (pop-IsValid v), ← pop_refines v)
