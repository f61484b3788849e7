-- ===== src/Address.antt =====
-- include/mm_address.h: the pages of an address space and the frames of memory. The tables of the
-- kernel that the linker places stand at pages of this model's choice; no theorem depends on it.
use so2_project.Common.{ℕ, ◌+◌, ◌/◌, ◌^◌}

abbrev pub total_pages : ℕ
total_pages = 1024

abbrev pub num_pag_kernel : ℕ
num_pag_kernel = 256

abbrev pub l_user_start : ℕ
l_user_start = 0x100000

abbrev pub page_size : ℕ
page_size = 0x1000

-- `PH_PAGE`, and every other shift by 12
abbrev pub ph_page : ℕ → ℕ
ph_page a = a / 2 ^ 12

abbrev pub pag_log_init_code : ℕ
pag_log_init_code = ph_page l_user_start

abbrev pub num_pag_code : ℕ
num_pag_code = 8

abbrev pub pag_log_init_data : ℕ
pag_log_init_data = pag_log_init_code + num_pag_code

abbrev pub num_pag_data : ℕ
num_pag_data = 20

abbrev pub user_first_page : ℕ
user_first_page = ph_page l_user_start

abbrev pub nr_tasks : ℕ
nr_tasks = 10

-- The page of `protected_tasks[0]`; `task[i]` is `protected_tasks[i + 1]`, a page each.
abbrev pub protected_page : ℕ
protected_page = 16

abbrev pub task_page : ℕ → ℕ
task_page i = protected_page + 1 + i

-- The page of `pagusr_table[0]`; each table is a page.
abbrev pub pagusr_page : ℕ
pagusr_page = 48
