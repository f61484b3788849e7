-- ===== src/Frames/Free.antt =====
-- free_frame undoes alloc_frame, save for the first frame of all.
use so2_project.Common.{
  ℕ, ◌≤◌, ◌≡◌, ap, fun_ext, some, none, arith, ◌==◌, if◌then◌else◌, update, Option,
}
use so2_project.Address.{num_pag_kernel}
use so2_project.Frames.{PhysMem, used_mark, alloc_frame, free_frame}
use so2_project.Frames.Alloc.{Found, alloc_frame-Found}

free_Found :
    (mem : PhysMem) (r : Option ℕ × PhysMem) (f : ℕ)
    → Found num_pag_kernel mem r
    → r.0 ≡ some f
    → free_frame r.1 f ≡ (if f == num_pag_kernel then update mem f used_mark else mem)
unfolding free_frame
free_Found mem (none, m) f h e = cc
free_Found mem (some g, m) f (lo, hi, par, free, mark, before) e =
    let same : g ≡ f = cc in fun_ext λ k. rw mark (ground arith)

-- Given back at once, a frame that alloc_frame handed out leaves the byte map as it was before; but
-- frame 256, the first that alloc_frame looks at, stays used for ever.
pub free_frame-alloc_frame :
    (mem : PhysMem) (f : ℕ)
    → (alloc_frame mem).0 ≡ some f
    → free_frame (alloc_frame mem).1 f
      ≡ (if f == num_pag_kernel then update mem num_pag_kernel used_mark else mem)
free_frame-alloc_frame mem f e =
    let r = free_Found mem (alloc_frame mem) f (alloc_frame-Found mem) e in
    fun_ext λ k. ground (arith, ap (λ (m : PhysMem). m k) r)

-- The kernel's frames are never given away: no call of free_frame makes one of them free.
pub free_frame-kernel : (mem : PhysMem) (f k : ℕ) → k ≤ num_pag_kernel → free_frame mem f k ≡ mem k
unfolding free_frame
free_frame-kernel mem f k h = ground arith
