-- ===== src/Paging/Mapping.antt =====
-- set_ss_pag, del_ss_pag and get_frame as the operations of a map from pages to frames.
use so2_project.Common.{ℕ, ◌%◌, ◌^◌, ◌≡◌, arith, ◌==◌, if◌then◌else◌}
use so2_project.Paging.{PageTable, zero_entry, set_ss_pag, del_ss_pag, get_frame}

module _ (pt : PageTable) (page frame q : ℕ) where
  -- A mapped page leads to the 20 low bits of its frame, and the other pages keep theirs.
  pub get_frame-set_ss_pag :
      get_frame (set_ss_pag pt page frame) q
      ≡ (if q == page then frame % 2 ^ 20 else get_frame pt q)
  unfolding get_frame set_ss_pag
  get_frame-set_ss_pag = ground arith

  -- set_ss_pag then del_ss_pag leaves the table as it was, but for the page, which is absent.
  pub del_ss_pag-set_ss_pag :
      del_ss_pag (set_ss_pag pt page frame) page q ≡ (if q == page then zero_entry else pt q)
  unfolding set_ss_pag del_ss_pag
  del_ss_pag-set_ss_pag = ground arith
