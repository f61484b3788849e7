-- ===== src/Processes/Fork/Room.antt =====
-- The frames of the child, and the room in the parent's address space for mapping one after the other.
use so2_project.Common.{ℕ, ◌+◌, ◌≤◌, ◌≡◌, sym, ap, ◌∙◌, ◌≢◌, Option, some, Bool, true, ◌&&◌, arith}
use so2_project.Address.{total_pages, num_pag_data, pag_log_init_data}
use so2_project.Frames.{PhysMem, free_mark}
use so2_project.Paging.{PageTable, get_frame}
use so2_project.Utils.{Memory}
use so2_project.Kernel.{Kernel}
use so2_project.Boot.{get_pt}
use so2_project.Regions.{is_present, find_gap, map_pages}
use so2_project.Regions.Dynamic.{first_page}
use so2_project.Regions.Frames.{Granted}
use so2_project.Processes.Answers.{found}
use so2_project.Processes.Fork.{Tables, copy_rounds}
use so2_project.Processes.Fork.Copy.{copy_rounds-Copied}
use so2_project.Processes.Fork.Page.{IsData, IsSplit, Copied, frame}
use so2_project.Processes.Fork.Cases.{equipped, equipped-parent, equipped-child}

-- The data pages of the process that forks are present, in frames of its own above those of the kernel.
pub record IsParent (pt : PageTable) (mem : PhysMem) : Type 0 where
  pub present : (p : ℕ) → IsData p → is_present pt p ≡ true
  pub taken : (p : ℕ) → IsData p → mem (get_frame pt p) ≢ free_mark
  pub above : (p : ℕ) → IsData p → 256 ≤ get_frame pt p

-- Where the parent's address space has 20 free pages in a row.
abbrev pub fork_gap : PageTable → Option ℕ
fork_gap pt = find_gap total_pages pt num_pag_data first_page

-- Whether there is a frame for each data page.
abbrev pub fork_frames : (own : PageTable) → PhysMem → Bool
fork_frames own mem = (map_pages num_pag_data pag_log_init_data 0 (own, mem)).0

-- Whether there are frames for the child, and room for its pages in the parent's address space.
abbrev pub can_fork : (own parent : PageTable) → PhysMem → Bool
can_fork own parent mem = fork_frames own mem && found (fork_gap parent)

-- A gap is where the temporary pages fit, too.
abbrev pub FitsTemp : PageTable → Type 0
FitsTemp pt = (g : ℕ) → fork_gap pt ≡ some g → g + 36 ≤ 1024

-- The child's frames, the parent's, and room to map one of them after the other.
module _ (k : Kernel) (t : ℕ) (ne : get_pt k t ≢ get_pt k k.current)
    (parent : IsParent (k.pagusr_table (get_pt k k.current)) k.phys_mem) (s : PageTable × PhysMem)
    (granted : Granted k.phys_mem s.0 264 20) where
  abbrev pub tables_then : Tables
  tables_then = (equipped k t s ne).pagusr_table

  pub child_frame : (p : ℕ) → IsData p → get_frame (tables_then (get_pt k t)) p ≡ get_frame s.0 p
  child_frame p d = frame (tables_then (get_pt k t)) s.0 p (equipped-child k t s ne p d.0)

  pub parent_frame :
      (p : ℕ)
      → get_frame (tables_then (get_pt k k.current)) p
        ≡ get_frame (k.pagusr_table (get_pt k k.current)) p
  parent_frame p = ap (λ pt. get_frame pt p) (equipped-parent k t s ne)

  equipped-IsSplit : IsSplit tables_then (get_pt k k.current) (get_pt k t)
  equipped-IsSplit = record {
    present = λ p d. ap (λ pt. is_present pt p) (equipped-parent k t s ne) ∙ parent.present p d;
    small = λ p d. rw (child_frame p d) (let b = granted.bound p d.0 d.1 in omega arith);
    own = λ p q d e n. rw (child_frame p d, child_frame q e) (granted.own p q d.0 d.1 e.0 e.1 n);
    apart = λ p q d e.
        rw (child_frame p d, parent_frame q)
          (λ h. parent.taken q e (ap k.phys_mem (sym h) ∙ granted.free p d.0 d.1));
  }

  pub copies :
      (g : ℕ)
      → 284 ≤ g
      → g + 36 ≤ 1024
      → (ram : Memory)
      → (s' : Tables × Memory) × (copy_rounds 20
            (get_pt k k.current)
            (get_pt k t)
            g
            264
            (tables_then, ram)
          ≡ some s')
        × Copied (get_pt k k.current) (get_pt k t) g 264 20 (tables_then, ram) s'
  copies g low high ram =
      copy_rounds-Copied (get_pt k k.current) (get_pt k t) g ne low high 20 264 (tables_then, ram)
        (omega arith) (omega arith) equipped-IsSplit
