-- ===== src/Processes/Threads/Created.antt =====
-- sys_threadCreateWithStack as a whole: a thread that is ready, or a task structure that is free again.
use so2_project.Common.{ℕ, pos, ◌+ℤ◌, Option, none, some, Bool, false, if◌then◌else◌}
use so2_project.Links.Family.{Family}
use so2_project.Frames.{PhysMem}
use so2_project.Paging.{PageTable}
use so2_project.Kernel.{Kernel}
use so2_project.Boot.{get_pt}
use so2_project.Syscalls.{e_again}
use so2_project.Regions.{find_gap, map_pages}
use so2_project.Address.{total_pages}
use so2_project.Regions.Dynamic.{first_page}
use so2_project.Processes.{Outcome}
use so2_project.Processes.Answers.{Answers, returned}
use so2_project.Processes.Threads.Queues.{threaded}

-- A new ready thread, whose number is the answer, or an error and the task structure given back.
abbrev pub Threaded : Kernel → Family → (t h : ℕ) → Bool → Outcome → Type 0
Threaded k f t h made =
    Answers (if made then k.global_pid +ℤ pos 1 else e_again) k.current
      (if made then threaded f t h else returned f t)

-- Where the address space has `n` free pages in a row, and whether there are frames for them.
abbrev pub stack_gap : PageTable → ℕ → Option ℕ
stack_gap pt n = find_gap total_pages pt n first_page

abbrev pub can_map : PageTable → PhysMem → ℕ → Option ℕ → Bool
can_map pt mem n none = false
can_map pt mem n (some g) = (map_pages n g 0 (pt, mem)).0

-- The table of the caller, and whether it has a stack of `n` pages to give.
abbrev pub can_create : Kernel → ℕ → Bool
can_create k n =
    let pt = k.pagusr_table (get_pt k k.current) in can_map pt k.phys_mem n (stack_gap pt n)
