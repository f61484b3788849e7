-- ===== src/Regions/Dynamic.antt =====
-- sys_memRegGet and sys_memRegDel of sys.c: a block of user memory, whose first page begins with the entry
-- of the list of blocks and the number of pages.
use so2_project.Common.{
  ℕ, ◌+◌, ◌-◌, ◌*◌, ◌/◌, ◌%◌, ◌^◌, ℤ, pos, pos_part, ltb_ℤ, Option, none, some, Bool, true, false,
  ◌⊎◌, inl, inr, if◌then◌else◌, update,
}
use so2_project.Address.{total_pages, page_size}
use so2_project.Links.{init_list_head, list_add_tail, list_del}
use so2_project.Frames.{PhysMem}
use so2_project.Paging.{PageTable}
use so2_project.Utils.{Memory}
use so2_project.Kernel.{Kernel, memoria_of, print}
use so2_project.Messages.{removing_memory}
use so2_project.Text.{print_hex}
use so2_project.Boot.{get_dir, get_pt}
use so2_project.Syscalls.{e_again, e_inval}
use so2_project.Regions.{find_gap, map_pages, release_range}

-- `NUM_PAG_KERNEL+NUM_PAG_CODE+NUM_PAG_DATA`
abbrev pub first_page : ℕ
first_page = 284

-- An int in memory, its four bytes from the lowest on.
abbrev pub put_int : Memory → (a v : ℕ) → Memory
put_int m a v =
    update
      (update (update (update m a (v % 2 ^ 8)) (a + 1) (v / 2 ^ 8 % 2 ^ 8)) (a + 2)
        (v / 2 ^ 16 % 2 ^ 8))
      (a + 3) (v / 2 ^ 24 % 2 ^ 8)

abbrev pub get_int : Memory → ℕ → ℕ
get_int m a = m a + 2 ^ 8 * m (a + 1) + 2 ^ 16 * m (a + 2) + 2 ^ 24 * m (a + 3)

-- The table of the running process, and the map of frames.
abbrev pub tables : Kernel → PageTable × PhysMem
tables k = (k.pagusr_table (get_pt k k.current), k.phys_mem)

abbrev pub set_tables : Kernel → PageTable × PhysMem → Kernel
set_tables k (pt, mem) = record k {
  pagusr_table = update k.pagusr_table (get_pt k k.current) pt;
  phys_mem = mem;
}

-- The writes at the start of a new block, and what is printed.
unfoldable pub begin_block : Kernel → Memory → (num_pages start : ℕ) → (ℤ ⊎ ℕ) × Kernel × Memory
begin_block k m num_pages start =
    let l = start * page_size in
    let k₁ = record k {
      links = list_add_tail (init_list_head k.links l) l (memoria_of k.current);
    } in
    (
      inr (l + 12),
      record k₁ { screen = print_hex k₁.screen num_pages },
      put_int m (l + 8) num_pages,
    )

-- What follows the loop that maps the pages, and what follows the search.
abbrev pub after_pages :
    Kernel
    → Memory
    → (num_pages start : ℕ) → Bool × (PageTable × PhysMem)
    → (ℤ ⊎ ℕ) × Kernel × Memory
after_pages k m num_pages start (true, s) = begin_block (set_tables k s) m num_pages start
after_pages k m num_pages start (false, s) = (inl e_again, set_tables k s, m)

abbrev pub after_search : Kernel → Memory → (num_pages : ℕ) → Option ℕ → (ℤ ⊎ ℕ) × Kernel × Memory
after_search k m num_pages none = (inl e_again, k, m)
after_search k m num_pages (some start) =
    after_pages k m num_pages start (map_pages num_pages start 0 (tables k))

-- An error number, or the address behind the header of the block.
unfoldable pub sys_mem_reg_get : Kernel → Memory → ℤ → (ℤ ⊎ ℕ) × Kernel × Memory
sys_mem_reg_get k m num_pages =
    if ltb_ℤ num_pages (pos 0)
    then (inl e_inval, k, m)
    else after_search k m (pos_part num_pages + 1)
        (find_gap total_pages (tables k).0 (pos_part num_pages + 1) first_page)

-- The block leaves the list, and its number of pages is printed.
abbrev pub del_header : Kernel → Memory → ℕ → Kernel
del_header k m a =
    let k₁ = print k removing_memory in
    let k₂ = record k₁ { links = list_del k₁.links (a - 12) } in
    record k₂ { screen = print_hex k₂.screen (get_int m (a - 4)) }

unfoldable pub sys_mem_reg_del : Kernel → Memory → ℕ → ℤ × Kernel
sys_mem_reg_del k m a =
    let k₁ = del_header k m a in
    let k₂ = set_tables k₁ (release_range ((a - 12) / page_size) (get_int m (a - 4)) (tables k₁)) in
    (pos 0, record k₂ { cr3 = get_dir k₂ k₂.current })
