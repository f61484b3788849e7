-- ===== src/Regions/Tests.antt =====
-- A search past one page in use.
use so2_project.Common.{◌≡◌, refl, some, arith, ◌==◌, if◌then◌else◌, pos}
use so2_project.Paging.{PageTable, zero_entry}
use so2_project.Regions.{scan, skip, find_gap}
use so2_project.Regions.Dynamic.{sys_mem_reg_get}
use so2_project.Regions.RoundTrip.{Regained, sys_mem_reg_get-Regained}
use so2_project.Samples.{zeros}
use so2_project.Regions.Gap.{First, find_gap-First}

-- Page 286 is in use.
abbrev one_used : PageTable
one_used i = if i == 286 then record zero_entry { present = 1 } else zero_entry

gap_run : find_gap 3 one_used 3 284 ≡ some 287
unfolding find_gap scan skip
gap_run = refl

find_gap-First_example : First one_used 3 284 (find_gap 740 one_used 3 284)
find_gap-First_example = find_gap-First 740 one_used 3 284 (omega arith) (omega arith)

sys_mem_reg_get-Regained_example : Regained zeros 284 (sys_mem_reg_get zeros (λ a. 0) (pos 1))
sys_mem_reg_get-Regained_example = sys_mem_reg_get-Regained zeros (λ a. 0) (pos 1) 284
