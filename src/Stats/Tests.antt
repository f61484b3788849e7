-- ===== src/Stats/Tests.antt =====
-- A process that is charged across a wrap of the clock.
use so2_project.Common.{ℕ, arith, List, [], ◌∷◌}
use so2_project.Stats.{Counter, init_stats}
use so2_project.Stats.Account.{charge_all, Accounts, init_stats-charge_all}

abbrev history : List (Counter × ℕ)
history = (Counter.user_ticks, 0xffffffff) ∷ (Counter.system_ticks, 5) ∷ []

init_stats-charge_all_example :
    Accounts 0xfffffff0 (charge_all history (init_stats 0xfffffff0 0xfffffff1))
init_stats-charge_all_example =
    init_stats-charge_all 0xfffffff0 0xfffffff1 history (omega arith)
      (omega arith, (omega arith, tt))
