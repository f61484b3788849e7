-- ===== src/Boot/Tables.antt =====
-- The page table that the first process has when main is done.
use so2_project.Common.{ℕ, ◌+◌, ◌-◌, ◌≡◌, refl, ap, ◌∙◌, arith, update, for_range, for_range_inv}
use so2_project.Address.{pagusr_page}
use so2_project.Frames.{PhysMem, init_frames}
use so2_project.Paging.{
  Entry, PageTable, get_frame, init_table_pages, init_dir_pages, set_user_pages,
}
use so2_project.Paging.Boot.{init_table_pages-boot}
use so2_project.Paging.First.{set_user_pages-first}
use so2_project.Kernel.{Kernel, freequeue, list_of, task_address, list_head_to_task_struct, print}
use so2_project.Links.{list_first}
use so2_project.Messages.{kernel_loaded}
use so2_project.Boot.{
  get_pt, allocate_dir, clear_has_threads, fill_idle, init_mm, init_freequeue, init_freesem,
  init_sched, init_idle, init_task1, boot,
}
use so2_project.Boot.Start.{idle_first}
use so2_project.Boot.Main.{user_table}
use so2_project.Boot.Image.{IsFirst}

-- The tables, the directories and the frames are the same.
record SameMemory (k k' : Kernel) : Type 0 where
  pub tables : k'.pagusr_table ≡ k.pagusr_table
  pub dirs : k'.dir_pages ≡ k.dir_pages
  pub frames : k'.phys_mem ≡ k.phys_mem

init_freequeue-SameMemory : (k : Kernel) → SameMemory k (init_freequeue k)
unfolding init_freequeue
init_freequeue-SameMemory k =
    for_range_inv (λ i (k' : Kernel). SameMemory k k') _ 10 0 10 _
      (λ i k' lo hi s. record { tables = s.tables; dirs = s.dirs; frames = s.frames }) (omega arith)
      (record { tables = refl; dirs = refl; frames = refl })

init_freesem-SameMemory : (k : Kernel) → SameMemory k (init_freesem k)
unfolding init_freesem
init_freesem-SameMemory k =
    for_range_inv (λ i (k' : Kernel). SameMemory k k') _ 10 0 10 _
      (λ i k' lo hi s. record { tables = s.tables; dirs = s.dirs; frames = s.frames }) (omega arith)
      (record { tables = refl; dirs = refl; frames = refl })

init_sched-SameMemory : (k : Kernel) → SameMemory k (init_sched k)
unfolding init_sched
init_sched-SameMemory k =
    let first = init_freequeue-SameMemory k in
    let second = init_freesem-SameMemory _ in
    record {
      tables = second.tables ∙ first.tables;
      dirs = second.dirs ∙ first.dirs;
      frames = second.frames ∙ first.frames;
    }

init_idle-SameMemory : (k : Kernel) → SameMemory k (init_idle k)
unfolding init_idle fill_idle clear_has_threads allocate_dir
init_idle-SameMemory k = record {
  tables = ground arith;
  dirs = ground arith;
  frames = ground arith;
}

-- init_task1 maps the pages of the process in the table that its directory leads to.
abbrev table_of_first : Kernel → ℕ
table_of_first k = (k.dir_pages 1).pbase_addr - pagusr_page

update-same : (f : ℕ → PageTable) (j : ℕ) (x : PageTable) → update f j x j ≡ x
update-same f j x = ground arith

init_task1-table :
    (k : Kernel)
    → list_first k.links freequeue ≡ list_of (task_address 1)
    → let k' = init_task1 k in
      k'.pagusr_table (get_pt k' k'.esp0)
      ≡ (set_user_pages (k.pagusr_table (table_of_first k), k.phys_mem)).0
unfolding init_task1 list_head_to_task_struct allocate_dir
init_task1-table k h = rw h (
    update-same k.pagusr_table (table_of_first k)
      (set_user_pages (k.pagusr_table (table_of_first k), k.phys_mem)).0)

init_mm-table : (k : Kernel) → table_of_first (init_mm k) ≡ 1
unfolding init_mm init_dir_pages for_range
init_mm-table k = refl

init_mm-memory :
    (k : Kernel)
    → ((init_mm k).pagusr_table ≡ init_table_pages k.pagusr_table)
      × ((init_mm k).phys_mem ≡ init_frames k.phys_mem)
unfolding init_mm
init_mm-memory k = (refl, refl)

-- The table after main.
pub user_table-boot :
    (k : Kernel)
    → user_table (boot k)
      ≡ (set_user_pages (init_table_pages k.pagusr_table 1, init_frames k.phys_mem)).0
unfolding boot
user_table-boot k =
    let k₀ = init_mm (print k kernel_loaded) in
    let k₁ = init_idle (init_sched k₀) in
    let (tables, mem) = init_mm-memory (print k kernel_loaded) in
    let first = init_sched-SameMemory k₀ in
    let second = init_idle-SameMemory (init_sched k₀) in
    let dirs : table_of_first k₁ ≡ 1 =
      ap (λ (d : ℕ → Entry). (d 1).pbase_addr - pagusr_page) (second.dirs ∙ first.dirs)
      ∙ init_mm-table (print k kernel_loaded) in
    init_task1-table k₁ (idle_first k₀)
    ∙ ap (λ (j : ℕ). (set_user_pages (k₁.pagusr_table j, k₁.phys_mem)).0) dirs
    ∙ ap (λ (ts : ℕ → PageTable). (set_user_pages (ts 1, k₁.phys_mem)).0)
        (second.tables ∙ first.tables ∙ tables)
    ∙ ap (λ (m : PhysMem). (set_user_pages (init_table_pages k.pagusr_table 1, m)).0)
        (second.frames ∙ first.frames ∙ mem)

-- It leads to the kernel's pages and to every second frame from 256 on.
pub user_table-IsFirst : (k : Kernel) → IsFirst (user_table (boot k))
unfolding get_frame
user_table-IsFirst k =
    let laid = set_user_pages-first (init_table_pages k.pagusr_table 1) k.phys_mem in
    let same = user_table-boot k in
    record {
      user = λ i l. ap (λ (pt : PageTable). (pt (256 + i)).pbase_addr) same ∙ laid.0 i l;
      kernel = λ p lo hi.
          ap (λ (pt : PageTable). (pt p).pbase_addr) same
          ∙ ap (λ (e : Entry). e.pbase_addr)
              (laid.1 p hi ∙ init_table_pages-boot k.pagusr_table 1 p (omega arith) (omega arith))
          ∙ ground arith;
    }
