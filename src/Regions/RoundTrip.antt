-- ===== src/Regions/RoundTrip.antt =====
-- A block that is got and given back leaves the pages as they were.
use so2_project.Common.{
  ℕ, ◌+◌, ◌-◌, ◌*◌, ◌/◌, ◌^◌, ◌≤◌, ◌<◌, ◌≡◌, refl, ap, ◌∙◌, ℤ, pos, pos_part, ltb_ℤ, Option, none,
  some, Bool, true, false, Bool-cases, ◌⊎◌, inl, inr, arith, ==-self,
}
use so2_project.Address.{total_pages, page_size}
use so2_project.Paging.{PageTable}
use so2_project.Utils.{Memory}
use so2_project.Kernel.{Kernel}
use so2_project.Boot.{get_pt}
use so2_project.Regions.{is_present, find_gap, map_pages, release_range}
use so2_project.Regions.Gap.{IsGap, First, find_gap-First}
use so2_project.Regions.Pages.{Mapping, map_pages-Mapping, release_range-pages}
use so2_project.Regions.Dynamic.{
  first_page, put_int, get_int, tables, set_tables, begin_block, after_pages, after_search,
  del_header, sys_mem_reg_get, sys_mem_reg_del,
}

pub get_int-put_int : (m : Memory) (a v : ℕ) → v < 2 ^ 32 → get_int (put_int m a v) a ≡ v
get_int-put_int m a v h = ground arith

-- A table in which a gap was mapped and released again.
regained :
    (pt : PageTable) (base n : ℕ) (r : Bool × (PageTable × (ℕ → ℕ)))
    → ((k : ℕ) → base ≤ k → k < base + n → is_present pt k ≡ false)
    → Mapping pt base n r
    → (k : ℕ) → is_present (release_range base n r.1).0 k ≡ is_present pt k
regained pt base n r free m k = ground (arith, release_range-pages base n r.1 k, m.others k, free k)

tables-set_tables : (k : Kernel) (s : PageTable × (ℕ → ℕ)) → tables (set_tables k s) ≡ s
tables-set_tables k s = rw (==-self (get_pt k k.current)) refl

-- The header says which pages the block has.
del-begin_block :
    (k : Kernel) (m : Memory) (n start : ℕ)
    → n < 2 ^ 32
    → let r = begin_block k m n start in
      tables (sys_mem_reg_del r.1 r.2 (start * page_size + 12)).1 ≡ release_range start n (tables k)
unfolding begin_block sys_mem_reg_del
del-begin_block k m n start small =
    let l : start * page_size + 12 - 12 ≡ start * page_size = omega arith in
    let page : start * page_size / page_size ≡ start = omega arith in
    let size : start * page_size + 12 - 4 ≡ start * page_size + 8 = omega arith in
    let same : release_range ((start * page_size + 12 - 12) / page_size)
          (get_int (put_int m (start * page_size + 8) n) (start * page_size + 12 - 4)) (tables k)
        ≡ release_range start n (tables k) =
      rw (l, page, size) (rw (get_int-put_int m (start * page_size + 8) n small) refl) in
    tables-set_tables
      (del_header (begin_block k m n start).1 (begin_block k m n start).2 (start * page_size + 12))
      _
    ∙ same

-- What is present after an error, or after a block was got and given back, is what was present before.
abbrev pub Regained : Kernel → ℕ → (ℤ ⊎ ℕ) × Kernel × Memory → Type 0
Regained k page (inl e, k', m') = is_present (tables k').0 page ≡ is_present (tables k).0 page
Regained k page (inr a, k', m') =
    is_present (tables (sys_mem_reg_del k' m' a).1).0 page ≡ is_present (tables k).0 page

kept_absent :
    (pt : PageTable) (base n : ℕ) (s : PageTable × (ℕ → ℕ))
    → ((k : ℕ) → base ≤ k → k < base + n → is_present pt k ≡ false)
    → Mapping pt base n (false, s)
    → (k : ℕ) → is_present s.0 k ≡ is_present pt k
kept_absent pt base n s free m k = ground (arith, m.inside k, m.others k, free k)

pages-Regained :
    (k : Kernel) (m : Memory) (n start page : ℕ) (r : Bool × (PageTable × (ℕ → ℕ)))
    → IsGap (tables k).0 n start
    → Mapping (tables k).0 start n r
    → Regained k page (after_pages k m n start r)
unfolding begin_block
pages-Regained k m n start page (false, s) gap w =
    ap (λ (t : PageTable × (ℕ → ℕ)). is_present t.0 page) (tables-set_tables k s)
    ∙ kept_absent (tables k).0 start n s gap.free w page
pages-Regained k m n start page (true, s) gap w =
    let room = gap.room in
    ap (λ (t : PageTable × (ℕ → ℕ)). is_present t.0 page)
      (del-begin_block (set_tables k s) m n start (omega arith))
    ∙ ap (λ t. is_present (release_range start n t).0 page) (tables-set_tables k s)
    ∙ regained (tables k).0 start n (true, s) gap.free w page

search-Regained :
    (k : Kernel) (m : Memory) (n page : ℕ) (o : Option ℕ)
    → First (tables k).0 n first_page o
    → Regained k page (after_search k m n o)
search-Regained k m n page none f = refl
search-Regained k m n page (some start) (lo, gap, low) =
    pages-Regained k m n start page (map_pages n start 0 (tables k)) gap
      (map_pages-Mapping (tables k).0 (tables k).1 start n gap.free)

-- For every number of pages and every page of the running process: if sys_memRegGet answers an error number,
-- the page is present afterwards exactly if it was before; if it answers a block, the page is so once
-- sys_memRegDel has given that block back. The header that the first call writes is read before anything else
-- is written.
pub sys_mem_reg_get-Regained :
    (k : Kernel) (m : Memory) (num_pages : ℤ) (page : ℕ)
    → Regained k page (sys_mem_reg_get k m num_pages)
unfolding sys_mem_reg_get
sys_mem_reg_get-Regained k m num_pages page = elim (Bool-cases (ltb_ℤ num_pages (pos 0))) [
  | inl negative ↦ rw negative refl
  | inr fine ↦ rw fine (
      search-Regained k m (pos_part num_pages + 1) page
        (find_gap total_pages (tables k).0 (pos_part num_pages + 1) first_page)
        (find_gap-First total_pages (tables k).0 (pos_part num_pages + 1) first_page (omega arith)
          (omega arith)))
]
