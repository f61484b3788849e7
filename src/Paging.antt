-- ===== src/Paging.antt =====
-- The page tables of mm.c and `page_table_entry` of include/types.h. A table is a function of the
-- logical page; writing `entry = 0` clears every field of the union.
pub mod Mapping
pub mod Boot
pub mod User
pub mod First
use so2_project.Common.{ℕ, ◌+◌, ◌-◌, ◌*◌, ◌/◌, ◌%◌, ◌^◌, Option, none, some, update, for_range}
use so2_project.Address.{
  total_pages, num_pag_kernel, pag_log_init_code, num_pag_code, pag_log_init_data, num_pag_data,
  nr_tasks, protected_page, pagusr_page,
}
use so2_project.Frames.{PhysMem, alloc_frame, free_frame}

-- `page_table_entry`
pub record Entry : Type 0 where
  pub present : ℕ
  pub rw_bit : ℕ
  pub user : ℕ
  pub write_t : ℕ
  pub cache_d : ℕ
  pub accessed : ℕ
  pub dirty : ℕ
  pub ps_pat : ℕ
  pub global_bit : ℕ
  pub avail : ℕ
  pub pbase_addr : ℕ

-- `entry = 0`
abbrev pub zero_entry : Entry
zero_entry = record {
  present = 0;
  rw_bit = 0;
  user = 0;
  write_t = 0;
  cache_d = 0;
  accessed = 0;
  dirty = 0;
  ps_pat = 0;
  global_bit = 0;
  avail = 0;
  pbase_addr = 0;
}

abbrev pub PageTable : Type 0
PageTable = ℕ → Entry

-- The field `pbase_addr` is 20 bits wide.
abbrev pub base_field : ℕ → ℕ
base_field frame = frame % 2 ^ 20

unfoldable pub set_ss_pag : PageTable → (page frame : ℕ) → PageTable
set_ss_pag pt page frame =
    update pt page
      (record zero_entry { pbase_addr = base_field frame; user = 1; rw_bit = 1; present = 1 })

unfoldable pub del_ss_pag : PageTable → ℕ → PageTable
del_ss_pag pt page = update pt page zero_entry

unfoldable pub get_frame : PageTable → ℕ → ℕ
get_frame pt page = (pt page).pbase_addr

-- The entry of a kernel page: the logical page is the frame.
abbrev pub kernel_entry : ℕ → Entry → Entry
kernel_entry i e = record e { pbase_addr = base_field i; rw_bit = 1; present = 1 }

abbrev hide : PageTable → ℕ → PageTable
hide pt page = update pt page (record (pt page) { present = 0 })

-- One table of `init_table_pages`. The pages before and after the tasks are made inaccessible.
unfoldable pub init_table_page : PageTable → PageTable
init_table_page pt =
    let cleared = for_range total_pages 0 (λ i t. update t i zero_entry) pt in
    let kernel =
      for_range (num_pag_kernel - 1) 1 (λ i t. update t i (kernel_entry i (t i))) cleared in
    hide (hide kernel protected_page) (protected_page + 11)

-- `init_table_pages`: the table of every task
unfoldable pub init_table_pages : (ℕ → PageTable) → ℕ → PageTable
unfolding init_table_page
init_table_pages tables = for_range nr_tasks 0 (λ j ts. update ts j (init_table_page (ts j))) tables

-- `init_dir_pages`, which sets the first entry of every directory
unfoldable pub init_dir_pages : (ℕ → Entry) → ℕ → Entry
init_dir_pages dirs =
    for_range nr_tasks 0
      (λ i ds. update ds i (record zero_entry {
        pbase_addr = base_field (pagusr_page + i);
        user = 1;
        rw_bit = 1;
        present = 1;
      }))
      dirs

-- What alloc_frame returns, written into 20 bits without a test for -1.
abbrev pub frame_bits : Option ℕ → ℕ
frame_bits none = base_field (2 ^ 32 - 1)
frame_bits (some f) = base_field f

abbrev pub code_entry : ℕ → Entry
code_entry b = record zero_entry { pbase_addr = b; user = 1; present = 1 }

abbrev pub data_entry : ℕ → Entry
data_entry b = record zero_entry { pbase_addr = b; user = 1; rw_bit = 1; present = 1 }

-- One round of the two loops of set_user_pages.
abbrev pub map_new : (ℕ → Entry) → ℕ → PageTable × PhysMem → PageTable × PhysMem
map_new entry page (pt, mem) =
    let (r, mem') = alloc_frame mem in (update pt page (entry (frame_bits r)), mem')

unfoldable pub set_user_pages : PageTable × PhysMem → PageTable × PhysMem
set_user_pages s =
    for_range num_pag_data 0 (λ pag. map_new data_entry (pag_log_init_data + pag))
      (for_range num_pag_code 0 (λ pag. map_new code_entry (pag_log_init_code + pag)) s)

unfoldable pub free_user_pages : PageTable × PhysMem → PageTable × PhysMem
free_user_pages s =
    for_range num_pag_data 0
      (λ pag (pt, mem). (
        update pt (pag_log_init_data + pag) zero_entry,
        free_frame mem (pt (pag_log_init_data + pag)).pbase_addr,
      ))
      s
