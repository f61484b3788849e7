-- ===== src/Stats.antt =====
-- include/stats.h, p_stats.c and init_stats of sched.c: the ticks that a process has spent.
pub mod Account
mod Tests
use so2_project.Common.{ℕ, ◌+◌, ◌-◌, ◌%◌, ◌^◌}

-- `struct stats`, of 32-bit words
pub record Stats : Type 0 where
  pub user_ticks : ℕ
  pub system_ticks : ℕ
  pub blocked_ticks : ℕ
  pub ready_ticks : ℕ
  pub elapsed_total_ticks : ℕ
  pub total_trans : ℕ
  pub remaining_ticks : ℕ

-- The counter whose address is passed to update_stats.
pub data Counter : Type 0 where
  user_ticks system_ticks blocked_ticks ready_ticks : Counter

-- `*v += current_ticks - *elapsed`, over words
abbrev pub add_ticks : (v current_ticks elapsed : ℕ) → ℕ
add_ticks v current_ticks elapsed = (v + (current_ticks + 2 ^ 32 - elapsed) % 2 ^ 32) % 2 ^ 32

-- `now` is what get_ticks returns.
unfoldable pub update_stats : Counter → ℕ → Stats → Stats
update_stats Counter.user_ticks now s = record s {
  user_ticks = add_ticks s.user_ticks now s.elapsed_total_ticks;
  elapsed_total_ticks = now;
}
update_stats Counter.system_ticks now s = record s {
  system_ticks = add_ticks s.system_ticks now s.elapsed_total_ticks;
  elapsed_total_ticks = now;
}
update_stats Counter.blocked_ticks now s = record s {
  blocked_ticks = add_ticks s.blocked_ticks now s.elapsed_total_ticks;
  elapsed_total_ticks = now;
}
update_stats Counter.ready_ticks now s = record s {
  ready_ticks = add_ticks s.ready_ticks now s.elapsed_total_ticks;
  elapsed_total_ticks = now;
}

-- The clock is read twice, first for `elapsed_total_ticks`.
unfoldable pub init_stats : (now later : ℕ) → Stats
init_stats now later = record {
  user_ticks = 0;
  system_ticks = 0;
  blocked_ticks = 0;
  ready_ticks = 0;
  elapsed_total_ticks = now;
  total_trans = 0;
  remaining_ticks = later;
}
