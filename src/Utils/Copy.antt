-- ===== src/Utils/Copy.antt =====
-- The copies move the whole range, also between ranges that overlap with the target below.
use so2_project.Common.{
  ℕ, zero, suc, ◌+◌, ◌-◌, ◌≤◌, ◌≡◌, ◌⊎◌, fun_ext, pos, ap, inl, inr, Bool-cases, ltb→lt, arith, ltb,
  ◌∙◌,
}
use so2_project.Utils.{
  Memory, move, copy_words, copy_bytes, copy_data, copy_from_user, copy_to_user,
}

-- The target begins at or below the source, or behind its end.
abbrev pub Forward : (p q n : ℕ) → Type 0
Forward p q n = (q ≤ p) ⊎ (p + n ≤ q)

-- A move of `w` bytes and then of the other `n`.
move-move :
    (m : Memory) (p q w n : ℕ)
    → Forward p q (w + n)
    → move (move m p q w) (p + w) (q + w) n ≡ move m p q (w + n)
move-move m p q w n f = fun_ext λ a. ground arith

copy_bytes-move : (n : ℕ) (m : Memory) (p q : ℕ) → Forward p q n → copy_bytes n m p q ≡ move m p q n
unfolding copy_bytes
copy_bytes-move zero m p q f = fun_ext λ a. ground arith
copy_bytes-move (suc n) m p q f =
    copy_bytes-move n (move m p q 1) (p + 1) (q + 1) (ground arith)
    ∙ move-move m p q 1 n (ground arith)
    ∙ ap (move m p q) (omega arith)

-- The words first, then the bytes that they leave.
copy_words-move :
    (fuel : ℕ) (m : Memory) (p q size : ℕ)
    → size ≤ fuel
    → Forward p q size
    → let (m', p1, q1, left) = copy_words fuel m p q size in
      copy_bytes left m' p1 q1 ≡ move m p q size
unfolding copy_words
copy_words-move zero m p q size h f = copy_bytes-move size m p q f
copy_words-move (suc fuel) m p q size h f = elim (Bool-cases (ltb 4 size)) [
  | inl more ↦
      let big = ltb→lt 4 size more in
      rw more (
        copy_words-move fuel (move m p q 4) (p + 4) (q + 4) (size - 4) (omega arith) (ground arith)
        ∙ move-move m p q 4 (size - 4) (ground arith)
        ∙ ap (move m p q) (omega arith))
  | inr few ↦ rw few (copy_bytes-move size m p q f)
]

-- copy_data, copy_from_user and copy_to_user, with their word loop and their byte loop, put at the
-- target what stood at the source before the call, write nowhere else, and the latter two return 0,
-- if the target begins at or below the source or behind its end. The loops end for every size.
pub copy-move :
    (m : Memory) (start dest n : ℕ)
    → Forward start dest n
    → (copy_data m start dest (pos n) ≡ move m start dest n)
      × (copy_from_user m start dest (pos n) ≡ (pos 0, move m start dest n))
      × (copy_to_user m start dest (pos n) ≡ (pos 0, move m start dest n))
unfolding copy_data copy_from_user copy_to_user
copy-move m start dest n f =
    let e = copy_words-move n m start dest n (omega arith) f in
    (e, ap (λ m'. (pos 0, m')) e, ap (λ m'. (pos 0, m')) e)
