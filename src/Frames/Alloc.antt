-- ===== src/Frames/Alloc.antt =====
-- What alloc_frame finds and marks.
use so2_project.Common.{
  ℕ, zero, suc, ◌+◌, ◌*◌, ◌%◌, ◌≤◌, ◌<◌, ◌≡◌, refl, ◌≢◌, false, Option, none, some, inl, inr,
  Bool-cases, ltb→lt, ==→eq, arith, ltb, ◌==◌, if◌then◌else◌, update, for_range, for_range-fill,
}
use native.Mathlib.Nat.{le_refl}
use so2_project.Address.{total_pages, num_pag_kernel}
use so2_project.Frames.{
  PhysMem, free_mark, used_mark, init_frames, alloc_from, alloc_fuel, alloc_frame,
}

-- What a search from frame `i` answers.
abbrev pub Found : ℕ → PhysMem → Option ℕ × PhysMem → Type 0
Found i mem (none, m) =
    (m ≡ mem) × ((k : ℕ) → i ≤ k → k < total_pages → k % 2 ≡ i % 2 → mem k ≢ free_mark)
Found i mem (some f, m) =
    (i ≤ f)
    × (f < total_pages)
    × (f % 2 ≡ i % 2)
    × (mem f ≡ free_mark)
    × (m ≡ update mem f used_mark)
    × ((k : ℕ) → i ≤ k → k < f → k % 2 ≡ i % 2 → mem k ≢ free_mark)

-- A used frame at the front is skipped.
Found-skip :
    (i : ℕ) (mem : PhysMem) (r : Option ℕ × PhysMem)
    → mem i ≢ free_mark
    → Found (i + 2) mem r
    → Found i mem r
Found-skip i mem (none, m) used (same, none_free) =
    (same, λ k lo hi par. grind (arith, none_free k))
Found-skip i mem (some f, m) used (lo, hi, par, free, mark, before) =
    (omega arith, hi, omega arith, free, mark, λ k lo' hi' par'. grind (arith, before k))

ltb-false : (a b : ℕ) → ltb a b ≡ false → ¬ (a < b)
ltb-false a b h l = ground arith

alloc_from-Found :
    (fuel i : ℕ) (mem : PhysMem) → total_pages < i + 2 * fuel → Found i mem (alloc_from fuel i mem)
unfolding alloc_from
alloc_from-Found zero i mem enough = (refl, λ k lo hi par. absurd (omega arith))
alloc_from-Found (suc fuel) i mem enough = elim (Bool-cases (ltb i total_pages)) [
  | inr past ↦ rw past (refl, λ k lo hi par. absurd (ltb-false i total_pages past (omega arith)))
  | inl inside ↦ elim (Bool-cases (mem i == free_mark)) [
    | inl free ↦
        rw (inside, free)
          (
            le_refl i,
            ltb→lt i total_pages inside,
            refl,
            ==→eq (mem i) free_mark free,
            refl,
            λ k lo hi par. absurd (omega arith),
          )
    | inr used ↦
        rw (inside, used)
          (Found-skip i mem (alloc_from fuel (i + 2) mem) (ground arith)
            (alloc_from-Found fuel (i + 2) mem (omega arith)))
  ]
]

-- alloc_frame answers with the first free frame among the even frames from 256 to 1023, and marks
-- that one as used and no other; it answers -1, and changes nothing, exactly if there is none.
pub alloc_frame-Found : (mem : PhysMem) → Found num_pag_kernel mem (alloc_frame mem)
unfolding alloc_frame
alloc_frame-Found mem = alloc_from-Found alloc_fuel num_pag_kernel mem (omega arith)

-- After init_frames the frames of the kernel are used and all the others free.
pub init_frames_lem :
    (mem : PhysMem) (k : ℕ)
    → init_frames mem k
      ≡ (if ltb k num_pag_kernel then used_mark else if ltb k total_pages then free_mark else mem k)
unfolding init_frames
init_frames_lem mem k =
    let cleared = for_range total_pages 0 (λ i m. update m i free_mark) mem in
    ground (
      arith,
      for_range-fill num_pag_kernel 0 used_mark cleared k,
      for_range-fill total_pages 0 free_mark mem k,
    )
