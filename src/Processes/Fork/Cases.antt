-- ===== src/Processes/Fork/Cases.antt =====
-- What sys_fork answers in each case.
use so2_project.Common.{
  ℕ, ◌-◌, ◌/◌, ◌≤◌, ◌≡◌, refl, sym, ap, ◌∙◌, ◌≢◌, some, Bool, true, false, arith,
}
use so2_project.Address.{page_size, pagusr_page, total_pages, num_pag_data}
use so2_project.Frames.{PhysMem}
use so2_project.Paging.{PageTable}
use so2_project.Utils.{Memory}
use so2_project.Kernel.{Kernel, freequeue, task_address}
use so2_project.Boot.{allocate_dir, get_pt, add_tail}
use so2_project.Syscalls.{e_again}
use so2_project.Regions.{find_gap}
use so2_project.Regions.Dynamic.{first_page}
use so2_project.Processes.{set_tables_of}
use so2_project.Processes.Fork.{begin_child, share_system, after_gap, after_frames}
use so2_project.Processes.Fork.Share.{share_pages_lem}

-- The table that a task structure gets with a new directory.
abbrev pub own_pt : Kernel → ℕ → ℕ
own_pt k t = (k.dir_pages ((t - task_address 0) / page_size)).pbase_addr - pagusr_page

pub begin_child-own : (k : Kernel) (t : ℕ) → get_pt (begin_child k t) t ≡ own_pt k t
unfolding begin_child allocate_dir
begin_child-own k t = ground arith

pub begin_child-parent :
    (k : Kernel) (t : ℕ) → t ≢ k.current → get_pt (begin_child k t) k.current ≡ get_pt k k.current
unfolding begin_child allocate_dir
begin_child-parent k t ne = ground arith

pub begin_child-same :
    (k : Kernel) (t : ℕ)
    → ((begin_child k t).pagusr_table ≡ k.pagusr_table)
      × ((begin_child k t).phys_mem ≡ k.phys_mem)
      × ((begin_child k t).current ≡ k.current)
      × ((begin_child k t).global_pid ≡ k.global_pid)
      × ((begin_child k t).idle_task ≡ k.idle_task)
unfolding begin_child allocate_dir
begin_child-same k t = (refl, refl, refl, refl, refl)

-- A child that has its frames: the parent's table is as it was, and the data pages of the child too.
module _ (k : Kernel) (t : ℕ) (s : PageTable × PhysMem) (ne : get_pt k t ≢ get_pt k k.current) where
  abbrev pub equipped : Kernel
  equipped = share_system (set_tables_of k t s) t

  pub equipped-parent :
      equipped.pagusr_table (get_pt k k.current) ≡ k.pagusr_table (get_pt k k.current)
  equipped-parent =
      (share_pages_lem (get_pt k k.current) (get_pt k t) (set_tables_of k t s).pagusr_table ne).0
        (get_pt k k.current) (λ e. ne (sym e))
      ∙ ground arith

  pub equipped-child : (p : ℕ) → 264 ≤ p → equipped.pagusr_table (get_pt k t) p ≡ s.0 p
  equipped-child p lo =
      (share_pages_lem (get_pt k k.current) (get_pt k t) (set_tables_of k t s).pagusr_table ne).1 p
      ∙ ground arith

-- The continuations at an answer that is known.
pub after_frames-false :
    (k : Kernel) (ram : Memory) (t l ebp ret : ℕ) (r : Bool × (PageTable × PhysMem))
    → r.0 ≡ false
    → after_frames k ram t l ebp ret r
      ≡ some (e_again, add_tail (set_tables_of k t r.1) l freequeue, ram)
after_frames-false k ram t l ebp ret (false, s) e = refl
after_frames-false k ram t l ebp ret (true, s) e = absurd (ground arith)

pub after_frames-true :
    (k : Kernel) (ram : Memory) (t l ebp ret : ℕ) (r : Bool × (PageTable × PhysMem))
    → (ne : get_pt k t ≢ get_pt k k.current) → r.0 ≡ true
    → after_frames k ram t l ebp ret r
      ≡ after_gap
          (equipped k t r.1 ne)
          ram
          t
          l
          ebp
          ret
          (find_gap total_pages (k.pagusr_table (get_pt k k.current)) num_pag_data first_page)
after_frames-true k ram t l ebp ret (false, s) ne e = absurd (ground arith)
after_frames-true k ram t l ebp ret (true, s) ne e =
    ap
      (λ pt.
        after_gap (equipped k t s ne) ram t l ebp ret
          (find_gap total_pages pt num_pag_data first_page))
      (equipped-parent k t s ne)
