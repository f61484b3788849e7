-- ===== src/Paging/First.antt =====
-- The frames that set_user_pages gives to the first process, right after init_frames.
use so2_project.Common.{
  ℕ, ◌+◌, ◌*◌, ◌%◌, ◌≤◌, ◌<◌, ◌≡◌, refl, ap, ◌∙◌, Option, none, some, arith, ltb, ◌==◌, ◌&&◌,
  if◌then◌else◌, for_range, for_range_inv,
}
use so2_project.Frames.{PhysMem, free_mark, used_mark, init_frames, alloc_frame}
use so2_project.Frames.Alloc.{Found, alloc_frame-Found, init_frames_lem}
use so2_project.Paging.{
  Entry, PageTable, code_entry, data_entry, map_new, set_user_pages, frame_bits,
}

-- The first `n` even frames of the users are in use.
abbrev FirstUsed : ℕ → PhysMem → Type 0
FirstUsed n mem =
    (k : ℕ)
    → 256 ≤ k
    → k < 1024
    → mem k ≡ (if k % 2 == 0 && ltb k (256 + 2 * n) then used_mark else free_mark)

-- The next one is what alloc_frame answers.
next_frame :
    (n : ℕ) (mem : PhysMem) (x : Option ℕ × PhysMem)
    → n < 384
    → FirstUsed n mem
    → Found 256 mem x
    → (x.0 ≡ some (256 + 2 * n)) × FirstUsed (n + 1) x.1
next_frame n mem (none, m) l u (same, none_free) = absurd (
    none_free (256 + 2 * n) (omega arith) (omega arith) (omega arith)
      (ground (arith, u (256 + 2 * n))))
next_frame n mem (some f, m) l u (lo, hi, par, free, mark, before) =
    let here : mem (256 + 2 * n) ≡ free_mark = ground (arith, u (256 + 2 * n)) in
    let e : f ≡ 256 + 2 * n = ground (arith, u f, before (256 + 2 * n)) in
    (ap some e, λ k a b. rw (mark, e) (ground (arith, u k)))

-- The table and the frames after `n` pages.
record Laid (old : PageTable) (n : ℕ) (s : PageTable × PhysMem) : Type 0 where
  pub used : FirstUsed n s.1
  pub frames : (i : ℕ) → i < n → (s.0 (256 + i)).pbase_addr ≡ 256 + 2 * i
  pub others : (p : ℕ) → p < 256 → s.0 p ≡ old p

map_new-Laid :
    (entry : ℕ → Entry) (old : PageTable) (n : ℕ) (s : PageTable × PhysMem)
    → ((b : ℕ) → (entry b).pbase_addr ≡ b)
    → n < 384
    → Laid old n s
    → Laid old (n + 1) (map_new entry (256 + n) s)
map_new-Laid entry old n (pt, mem) field l h =
    let (found, used) = next_frame n mem (alloc_frame mem) l h.used (alloc_frame-Found mem) in
    let bits : (entry (frame_bits (alloc_frame mem).0)).pbase_addr ≡ 256 + 2 * n =
      field (frame_bits (alloc_frame mem).0) ∙ ap frame_bits found ∙ omega arith in
    record {
      used = used;
      frames = λ i a. ground (arith, bits, h.frames i);
      others = λ p a. ground (arith, h.others p);
    }

loop-Laid :
    (entry : ℕ → Entry) (old : PageTable) (base n m : ℕ) (s : PageTable × PhysMem)
    → ((b : ℕ) → (entry b).pbase_addr ≡ b)
    → base ≡ 256 + m
    → m + n ≤ 384
    → Laid old m s
    → Laid old (m + n) (for_range n 0 (λ pag. map_new entry (base + pag)) s)
loop-Laid entry old base n m s field e l h =
    for_range_inv (λ i (t : PageTable × PhysMem). Laid old (m + i) t) _ n 0 n s
      (λ i t lo hi g.
        let p : m + (i + 1) ≡ m + i + 1 = omega arith in
        let q : base + i ≡ 256 + (m + i) = omega arith in
        rw (p, q) (map_new-Laid entry old (m + i) t field (omega arith) g))
      (omega arith) (let z : m + 0 ≡ m = omega arith in rw z h)

-- Right after init_frames, set_user_pages gives the page 256 + i the frame 256 + 2 * i, and the pages
-- of the kernel keep theirs.
pub set_user_pages-first :
    (pt : PageTable) (mem : PhysMem)
    → let new = (set_user_pages (pt, init_frames mem)).0 in
      ((i : ℕ) → i < 28 → (new (256 + i)).pbase_addr ≡ 256 + 2 * i)
      × ((p : ℕ) → p < 256 → new p ≡ pt p)
unfolding set_user_pages
set_user_pages-first pt mem =
    let start : Laid pt 0 (pt, init_frames mem) = record {
      used = λ k a b. ground (arith, init_frames_lem mem k);
      frames = λ i a. absurd (omega arith);
      others = λ p a. refl;
    } in
    let code =
      loop-Laid code_entry pt 256 8 0 (pt, init_frames mem) (λ b. refl) refl (omega arith) start in
    let all = loop-Laid data_entry pt 264 20 8 _ (λ b. refl) refl (omega arith) code in
    (all.frames, all.others)
