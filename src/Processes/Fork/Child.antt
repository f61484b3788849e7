-- ===== src/Processes/Fork/Child.antt =====
-- sys_fork as a whole: what it answers, and where the task structure goes.
use so2_project.Common.{ℕ, ◌≡◌, refl, ◌≢◌, pos, ◌+ℤ◌, none, Bool, false, List, ◌∷◌, if◌then◌else◌}
use so2_project.Address.{num_pag_data, pag_log_init_data}
use so2_project.Links.{list_empty, list_first}
use so2_project.Links.Family.{Family, dequeue}
use so2_project.Frames.{PhysMem}
use so2_project.Paging.{PageTable}
use so2_project.Utils.{Memory}
use so2_project.Kernel.{Kernel, freequeue, list_of, list_head_to_task_struct}
use so2_project.Boot.{get_pt, take_free}
use so2_project.Sched.Inv.{IsTask, IsSched}
use so2_project.Syscalls.{e_again}
use so2_project.Regions.{map_pages}
use so2_project.Processes.{tables_of}
use so2_project.Processes.{Outcome}
use so2_project.Processes.Answers.{Answers, returned}
use so2_project.Processes.Fork.{fork_child, sys_fork}
use so2_project.Processes.Fork.Cases.{own_pt}
use so2_project.Processes.Fork.Queues.{IsAside, forked}
use so2_project.Processes.Fork.Room.{IsParent, FitsTemp}

-- A new ready process, whose number is the answer, or an error and the task structure given back.
abbrev pub Forked : Kernel → Family → (t : ℕ) → Bool → Outcome → Type 0
Forked k f t made =
    Answers (if made then k.global_pid +ℤ pos 1 else e_again) k.current
      (if made then forked f t else returned f t)

module _ {k : Kernel} {f : Family} (t : ℕ) (v : IsSched k f) (task : IsTask t)
    (other : t ≢ k.current) (not_idle : t ≢ k.idle_task) (free : f.owner (list_of t) ≡ none)
    (aside : IsAside f t) (ne : get_pt k t ≢ get_pt k k.current)
    (parent : IsParent (k.pagusr_table (get_pt k k.current)) k.phys_mem)
    (fits : FitsTemp (k.pagusr_table (get_pt k k.current))) (ram : Memory) (ebp ret : ℕ) where
  abbrev mapping : Bool × (PageTable × PhysMem)
  mapping = map_pages num_pag_data pag_log_init_data 0 (tables_of k t)

pub sys_fork-takes :
    (k : Kernel) (ram : Memory) (ebp ret : ℕ)
    → list_empty k.links freequeue ≡ false
    → sys_fork k ram ebp ret ≡ fork_child ram (list_first k.links freequeue) ebp ret (take_free k)
unfolding sys_fork
sys_fork-takes k ram ebp ret e = rw e refl

-- What sys_fork is given: a free task structure, with a table of its own and nothing left in its lists, and a
-- process whose data pages are there.
pub record CanBegin (k : Kernel) (f : Family) (e : ℕ) (r : List ℕ) : Type 0 where
  pub free : f.queue freequeue ≡ e ∷ r
  pub aside : IsAside (dequeue f e freequeue) (list_head_to_task_struct e)
  pub apart : own_pt k (list_head_to_task_struct e) ≢ get_pt k k.current
  pub parent : IsParent (k.pagusr_table (get_pt k k.current)) k.phys_mem
  pub fits : FitsTemp (k.pagusr_table (get_pt k k.current))
