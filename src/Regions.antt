-- ===== src/Regions.antt =====
-- The search for consecutive free pages in an address space, which sys_memRegGet, sys_fork and
-- sys_threadCreateWithStack of sys.c share, and the dynamic memory of sys_memRegGet and sys_memRegDel.
pub mod Gap
pub mod Pages
pub mod Frames
pub mod Dynamic
pub mod RoundTrip
mod Tests
use so2_project.Common.{
  ℕ, zero, suc, ◌+◌, ◌-◌, Option, none, some, Bool, true, false, not, ◌==◌, ltb, leb, if◌then◌else◌,
  for_range,
}
use so2_project.Address.{total_pages}
use so2_project.Frames.{PhysMem, alloc_frame, free_frame}
use so2_project.Paging.{PageTable, set_ss_pag, del_ss_pag, get_frame}

-- `PT[pag].bits.present != 0`
abbrev pub is_present : PageTable → ℕ → Bool
is_present pt pag = not ((pt pag).present == 0)

-- Where the inner loop stops: at a page that is present, or at its end.
pub data Scan : Type 0 where
  hit clear : ℕ → Scan

-- `for (; pag < TOTAL_PAGES && pag < next_start_pos + num_pages; pag++)`, with as many rounds left as
-- there are pages up to `next_start_pos + num_pages`
unfoldable pub scan : ℕ → PageTable → ℕ → Scan
scan zero pt pag = clear pag
scan (suc left) pt pag =
    let rest = scan left pt (pag + 1) in
    if ltb pag total_pages then (if is_present pt pag then hit pag else rest) else clear pag

-- `while (temp_pag < TOTAL_PAGES && PT[temp_pag].bits.present != 0) temp_pag++;`
unfoldable pub skip : ℕ → PageTable → ℕ → ℕ
skip zero pt temp_pag = temp_pag
skip (suc fuel) pt temp_pag =
    let rest = skip fuel pt (temp_pag + 1) in
    if ltb temp_pag total_pages
    then (if is_present pt temp_pag then rest else temp_pag)
    else temp_pag

-- What the outer loop does after the inner one; `none` is the error.
abbrev pub after_scan :
    PageTable → (num_pages next_start_pos : ℕ) → (ℕ → Option ℕ) → Scan → Option ℕ
after_scan pt num_pages next_start_pos again (hit pag) =
    let temp_pag = skip total_pages pt pag in
    if leb total_pages temp_pag then none else again temp_pag
after_scan pt num_pages next_start_pos again (clear pag) =
    if leb total_pages pag then none else some next_start_pos

-- `while (!found)`: the page where a gap of `num_pages` pages begins.
unfoldable pub find_gap : ℕ → PageTable → (num_pages next_start_pos : ℕ) → Option ℕ
find_gap zero pt num_pages next_start_pos = none
find_gap (suc fuel) pt num_pages next_start_pos =
    after_scan pt num_pages next_start_pos (find_gap fuel pt num_pages)
      (scan num_pages pt next_start_pos)

-- What `pag` is when the search gives up, which is the bound of a loop in sys_fork.
abbrev pub stop_scan : PageTable → (ℕ → ℕ) → Scan → ℕ
stop_scan pt again (hit pag) =
    let temp_pag = skip total_pages pt pag in
    if leb total_pages temp_pag then pag else again temp_pag
stop_scan pt again (clear pag) = pag

unfoldable pub stop_page : ℕ → PageTable → (num_pages next_start_pos : ℕ) → ℕ
stop_page zero pt num_pages next_start_pos = next_start_pos
stop_page (suc fuel) pt num_pages next_start_pos =
    stop_scan pt (stop_page fuel pt num_pages) (scan num_pages pt next_start_pos)

-- `free_frame(get_frame(PT, page)); del_ss_pag(PT, page);`
abbrev pub release : ℕ → PageTable × PhysMem → PageTable × PhysMem
release page (pt, mem) = (del_ss_pag pt page, free_frame mem (get_frame pt page))

unfoldable pub release_range : (base n : ℕ) → PageTable × PhysMem → PageTable × PhysMem
release_range base n s = for_range n 0 (λ i. release (base + i)) s

-- The body of the loop that maps the pages of a gap: the answer of alloc_frame, and what happens then.
abbrev pub map_page :
    (base pag : ℕ)
    → PageTable
    → (PageTable × PhysMem → Bool × (PageTable × PhysMem))
    → Option ℕ × PhysMem
    → Bool × (PageTable × PhysMem)
map_page base pag pt next (some new_pag, mem) = next (set_ss_pag pt (base + pag) new_pag, mem)
map_page base pag pt next (none, mem) = (false, release_range base pag (pt, mem))

-- `for (pag = …; pag < num_pages; ++pag)`; false stands for the failure, after which all is given back.
unfoldable pub map_pages : (left base pag : ℕ) → PageTable × PhysMem → Bool × (PageTable × PhysMem)
map_pages zero base pag s = (true, s)
map_pages (suc left) base pag (pt, mem) =
    map_page base pag pt (map_pages left base (pag + 1)) (alloc_frame mem)
