-- ===== src/Processes/Fork/Share.antt =====
-- The kernel's pages and the code pages of the child are those of the parent.
use so2_project.Common.{ℕ, ◌+◌, ◌≡◌, refl, ◌≢◌, arith, ltb, if◌then◌else◌, for_range_inv}
use so2_project.Paging.{Entry, zero_entry, base_field, set_ss_pag, get_frame}
use so2_project.Processes.Fork.{Tables, share_page, share_pages}

-- The entry that set_ss_pag writes for a frame.
abbrev pub user_entry : ℕ → Entry
user_entry frame = record zero_entry {
  pbase_addr = base_field frame;
  user = 1;
  rw_bit = 1;
  present = 1;
}

module _ (parent child : ℕ) (ts₀ : Tables) (ne : child ≢ parent) where
  -- The first pages, up to `done`, are shared.
  record Sharing (done : ℕ) (ts : Tables) : Type 0 where
    others : (j : ℕ) → j ≢ child → ts j ≡ ts₀ j
    pages :
        (p : ℕ)
        → ts child p ≡ (if ltb p done then user_entry (get_frame (ts₀ parent) p) else ts₀ child p)

  next-Sharing :
      (done : ℕ) (ts : Tables)
      → Sharing done ts
      → Sharing (done + 1) (share_page parent child done ts)
  unfolding set_ss_pag
  next-Sharing done ts s =
      let same : ts parent ≡ ts₀ parent = s.others parent (λ e. ground arith) in
      record {
        others = λ j n. ground (arith, s.others j n);
        pages = λ p. rw same (ground (arith, s.pages p));
      }

  -- After both loops the pages below 264 are those of the parent, and nothing else is changed.
  pub share_pages_lem :
      ((j : ℕ) → j ≢ child → share_pages parent child ts₀ j ≡ ts₀ j)
      × ((p : ℕ)
          → share_pages parent child ts₀ child p
            ≡ (if ltb p 264 then user_entry (get_frame (ts₀ parent) p) else ts₀ child p))
  unfolding share_pages
  share_pages_lem =
      let kernel : Sharing 256 _ =
        for_range_inv (λ i ts. Sharing i ts) (share_page parent child) 256 0 256 ts₀
          (λ i ts lo hi s. next-Sharing i ts s) refl
          (record { others = λ j n. refl; pages = λ p. ground arith }) in
      let code : Sharing 264 _ =
        for_range_inv (λ i ts. Sharing (256 + i) ts) (λ i. share_page parent child (256 + i)) 8 0 8
          _
          (λ i ts lo hi s.
            let e : 256 + (i + 1) ≡ 256 + i + 1 = omega arith in rw e (next-Sharing (256 + i) ts s))
          refl kernel in
      (code.others, code.pages)
