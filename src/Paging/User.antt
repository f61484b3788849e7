-- ===== src/Paging/User.antt =====
-- The user pages that set_user_pages maps for the first process.
use so2_project.Common.{
  ℕ, ◌+◌, ◌≡◌, refl, Bool-cases, inl, inr, true, false, arith, ltb, leb, ◌&&◌, if◌then◌else◌,
  for_range, for_range_inv,
}
use so2_project.Address.{pag_log_init_code, num_pag_code, pag_log_init_data, num_pag_data}
use so2_project.Frames.{PhysMem, alloc_frame}
use so2_project.Paging.{
  Entry, PageTable, code_entry, data_entry, map_new, set_user_pages, frame_bits,
}

-- The pages from `base` to `base + n` hold an entry of the given kind, and no other has changed.
abbrev pub Mapped : (ℕ → Entry) → (base n : ℕ) → (old new : PageTable) → Type 0
Mapped entry base n old new =
    (k : ℕ) → new k ≡ (if leb base k && ltb k (base + n) then entry (new k).pbase_addr else old k)

map_new-Mapped :
    (entry : ℕ → Entry) (base n : ℕ) (old : PageTable) (s : PageTable × PhysMem)
    → ((b : ℕ) → (entry b).pbase_addr ≡ b)
    → Mapped entry base n old s.0
    → Mapped entry base (n + 1) old (map_new entry (base + n) s).0
map_new-Mapped entry base n old s field h k =
    ground (arith, h k, field (frame_bits (alloc_frame s.1).0))

loop-Mapped :
    (entry : ℕ → Entry) (base n : ℕ) (s : PageTable × PhysMem)
    → ((b : ℕ) → (entry b).pbase_addr ≡ b)
    → Mapped entry base n s.0 (for_range n 0 (λ pag. map_new entry (base + pag)) s).0
loop-Mapped entry base n s field =
    for_range_inv (λ i (t : PageTable × PhysMem). Mapped entry base i s.0 t.0) _ n 0 n s
      (λ i t lo hi. map_new-Mapped entry base i s.0 t field) (omega arith) (λ k. ground arith)

outside : (k : ℕ) → (leb 264 k && ltb k 284) ≡ true → (leb 256 k && ltb k 264) ≡ false
outside k h = ground arith

two_ranges :
    (k : ℕ) (old code new : Entry)
    → code ≡ (if leb 256 k && ltb k 264 then code_entry code.pbase_addr else old)
    → new ≡ (if leb 264 k && ltb k 284 then data_entry new.pbase_addr else code)
    → new ≡ (
        if leb 256 k && ltb k 264
        then code_entry new.pbase_addr
        else if leb 264 k && ltb k 284
        then data_entry new.pbase_addr
        else old)
two_ranges k old code new p q = elim (Bool-cases (leb 264 k && ltb k 284)) [
  | inl stack ↦ rw (outside k stack, stack) (rw stack at q)
  | inr other ↦ rw other (let e : new ≡ code = rw other at q in rw e p)
]

-- After set_user_pages the eight code pages are present, open to the user and read-only, the twenty
-- data pages present, open to the user and writable, no other bit of theirs is set, and every other
-- page is as it was.
pub set_user_pages-Mapped :
    (pt : PageTable) (mem : PhysMem) (k : ℕ)
    → let new = (set_user_pages (pt, mem)).0 in
      new k ≡ (
        if leb 256 k && ltb k 264
        then code_entry (new k).pbase_addr
        else if leb 264 k && ltb k 284
        then data_entry (new k).pbase_addr
        else pt k)
unfolding set_user_pages
set_user_pages-Mapped pt mem k =
    let s =
      for_range num_pag_code 0 (λ pag. map_new code_entry (pag_log_init_code + pag)) (pt, mem) in
    let code = loop-Mapped code_entry pag_log_init_code num_pag_code (pt, mem) (λ b. refl) k in
    let stack = loop-Mapped data_entry pag_log_init_data num_pag_data s (λ b. refl) k in
    two_ranges k (pt k) (s.0 k) _ code stack
