-- ===== src/Stats/Account.antt =====
-- No tick is lost: the four counters always sum to the time since the process began.
use so2_project.Common.{ℕ, ◌+◌, ◌-◌, ◌%◌, ◌^◌, ◌<◌, ◌≡◌, arith, List, [], ◌∷◌}
use so2_project.Stats.{Stats, Counter, update_stats, init_stats}

abbrev pub total : Stats → ℕ
total s = s.user_ticks + s.system_ticks + s.blocked_ticks + s.ready_ticks

-- The counters account for the ticks from `start` to the last update, in 32 bits.
abbrev pub Accounts : ℕ → Stats → Type 0
Accounts start s =
    (total s % 2 ^ 32 ≡ (s.elapsed_total_ticks + 2 ^ 32 - start) % 2 ^ 32)
    × (s.elapsed_total_ticks < 2 ^ 32)

-- A process's history: which counter is charged, and what the clock shows.
unfoldable pub charge_all : List (Counter × ℕ) → Stats → Stats
charge_all [] s = s
charge_all ((c, now) ∷ rest) s = charge_all rest (update_stats c now s)

abbrev pub InWord : List (Counter × ℕ) → Type 0
InWord [] = Unit
InWord ((c, now) ∷ rest) = (now < 2 ^ 32) × InWord rest

update_stats-Accounts :
    (start : ℕ) (c : Counter) (now : ℕ) (s : Stats)
    → start < 2 ^ 32
    → now < 2 ^ 32
    → Accounts start s
    → Accounts start (update_stats c now s)
unfolding update_stats
update_stats-Accounts start Counter.user_ticks now s hs hn a = omega arith
update_stats-Accounts start Counter.system_ticks now s hs hn a = omega arith
update_stats-Accounts start Counter.blocked_ticks now s hs hn a = omega arith
update_stats-Accounts start Counter.ready_ticks now s hs hn a = omega arith

charge_all-Accounts :
    (start : ℕ) (l : List (Counter × ℕ)) (s : Stats)
    → start < 2 ^ 32
    → InWord l
    → Accounts start s
    → Accounts start (charge_all l s)
unfolding charge_all
charge_all-Accounts start [] s hs w a = a
charge_all-Accounts start ((c, now) ∷ rest) s hs w a =
    charge_all-Accounts start rest (update_stats c now s) hs w.1
      (update_stats-Accounts start c now s hs w.0 a)

-- Whatever counters update_stats is called on after init_stats, and whenever, the user, system,
-- blocked and ready ticks sum to the time from init_stats to the last update, modulo 2^32, also when
-- the clock wraps: no tick is lost or counted twice.
pub init_stats-charge_all :
    (start later : ℕ) (l : List (Counter × ℕ))
    → start < 2 ^ 32
    → InWord l
    → Accounts start (charge_all l (init_stats start later))
unfolding init_stats
init_stats-charge_all start later l hs w =
    charge_all-Accounts start l (init_stats start later) hs w (omega arith)
