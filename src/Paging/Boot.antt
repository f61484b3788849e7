-- ===== src/Paging/Boot.antt =====
-- The tables that the kernel boots with.
use so2_project.Common.{
  ℕ, ◌+◌, ◌-◌, ◌<◌, ◌≡◌, arith, ltb, leb, ◌==◌, ◌&&◌, ◌||◌, if◌then◌else◌, update, ap, ◌∙◌,
  for_range, for_range-fill, for_range-map,
}
use so2_project.Address.{total_pages, num_pag_kernel, nr_tasks, protected_page}
use so2_project.Paging.{
  Entry, zero_entry, PageTable, kernel_entry, init_table_page, init_table_pages,
}

-- The entry of page `k` after init_table_page.
abbrev pub boot_entry : ℕ → Entry
boot_entry k =
    if leb 1 k && ltb k num_pag_kernel
    then record (kernel_entry k zero_entry) {
      present = if (k == protected_page) || (k == protected_page + 11) then 0 else 1;
    }
    else zero_entry

module _ (pt : PageTable) (k : ℕ) (inside : k < total_pages) where
  init_table_page-boot : init_table_page pt k ≡ boot_entry k
  unfolding init_table_page
  init_table_page-boot =
      let cleared = for_range total_pages 0 (λ i t. update t i zero_entry) pt in
      ground (
        arith,
        for_range-fill total_pages 0 zero_entry pt k,
        for_range-map (num_pag_kernel - 1) 1 kernel_entry cleared k,
      )

-- After init_table_pages every task's table maps each page of the kernel to the frame of the same
-- number, writable and for the kernel alone, and no other page; page 0 and the two pages around the
-- tasks are not present.
pub init_table_pages-boot :
    (tables : ℕ → PageTable) (j k : ℕ)
    → j < nr_tasks
    → k < total_pages
    → init_table_pages tables j k ≡ boot_entry k
unfolding init_table_pages
init_table_pages-boot tables j k hj hk =
    ap (λ (t : PageTable). t k) (for_range-map nr_tasks 0 (λ i. init_table_page) tables j)
    ∙ ground (arith, init_table_page-boot (tables j) k hk)
