-- ===== src/Utils/Ticks.antt =====
-- do_div.
use so2_project.Common.{ℕ, ◌+◌, ◌*◌, ◌/◌, ◌%◌, ◌^◌, ◌<◌, ◌≡◌, some, arith}
use so2_project.Utils.{do_div, cycles_per_tick}

-- do_div by CYCLESPERTICK never faults, and gives the quotient and the remainder of the whole 64-bit
-- number, though it divides 32 bits at a time.
pub do_div_lem :
    (high low : ℕ)
    → low < 2 ^ 32
    → do_div high low cycles_per_tick
      ≡ some ((high * 2 ^ 32 + low) / cycles_per_tick, (high * 2 ^ 32 + low) % cycles_per_tick)
unfolding do_div
do_div_lem high low h = ground arith
