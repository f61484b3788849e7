-- ===== src/Utils/Tests.antt =====
-- Runs of the checks, the copies and the clock, and the theorems about them at concrete inputs.
use so2_project.Common.{
  pos, ◌+◌, ◌*◌, ◌/◌, ◌%◌, ◌^◌, ◌≤◌, ◌<◌, ◌≡◌, refl, ◌↔◌, inl, true, some, arith, for_range,
}
use so2_project.Utils.{
  Memory, move, access_ok, verify_write, copy_data, copy_from_user, copy_to_user, memset, do_div,
  get_ticks,
}
use so2_project.Utils.Access.{access_ok_iff}
use so2_project.Utils.Copy.{copy-move}
use so2_project.Utils.Ticks.{do_div_lem}

-- The last page of the user ends at 0x11bfff, and a byte of the page after it passes.
access_ok_iff_example :
    (access_ok verify_write 0x11bffc 8 ≡ true)
    ↔ ((0x100000 ≤ 0x11bffc) × (0x11bffc + 8 < 285 * 4096))
access_ok_iff_example = access_ok_iff verify_write 0x11bffc 8 (omega arith) (omega arith)

access_ok_past_end : access_ok verify_write 0x11bffc 8 ≡ true
unfolding access_ok
access_ok_past_end = refl

abbrev memory : Memory
memory a = a

copy-move_example :
    (copy_data memory 100 50 (pos 7) ≡ move memory 100 50 7)
    × (copy_from_user memory 100 50 (pos 7) ≡ (pos 0, move memory 100 50 7))
    × (copy_to_user memory 100 50 (pos 7) ≡ (pos 0, move memory 100 50 7))
copy-move_example = copy-move memory 100 50 7 (inl (omega arith))

memset_run : memset memory 10 0 (pos 3) 12 ≡ 0
unfolding memset for_range
memset_run = refl

get_ticks_run : get_ticks 5 109001 ≡ some 39403
unfolding get_ticks
get_ticks_run = refl

do_div_lem_example :
    do_div 109001 5 109000 ≡ some ((109001 * 2 ^ 32 + 5) / 109000, (109001 * 2 ^ 32 + 5) % 109000)
do_div_lem_example = do_div_lem 109001 5 (omega arith)
