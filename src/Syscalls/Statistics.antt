-- ===== src/Syscalls/Statistics.antt =====
-- sys_get_stats of sys.c.
pub mod Answer
use so2_project.Common.{
  ℕ, zero, suc, ◌+◌, ◌-◌, ◌*◌, ◌%◌, ◌^◌, ◌≤◌, ◌<◌, ◌≡◌, refl, ℤ, pos, pos_part, neg_part, ltb_ℤ,
  ◌==ℤ◌, ==ℤ→eq, ==→eq, ◌⊎◌, Option, none, some, true, false, not, Bool-cases, inl, inr, List, [],
  ◌∷◌, ◌∙◌, All, length, get_or, arith, ◌==◌, if◌then◌else◌,
}
use so2_project.Address.{nr_tasks}
use so2_project.Stats.{Stats}
use so2_project.Utils.{Memory, access_ok, verify_write}
use so2_project.Kernel.{Kernel, task_address, set_task}
use so2_project.Regions.Dynamic.{put_int, get_int}
use so2_project.Regions.RoundTrip.{get_int-put_int}
use so2_project.Syscalls.{e_fault, e_inval, e_srch}

-- The words of `struct stats`, in order.
abbrev pub words : Stats → List ℕ
words s =
    s.user_ticks ∷ s.system_ticks ∷ s.blocked_ticks ∷ s.ready_ticks ∷ s.elapsed_total_ticks
    ∷ s.total_trans ∷ s.remaining_ticks ∷ []

-- `copy_to_user(&p_stats, st, sizeof(struct stats))`, word by word.
unfoldable pub put_words : Memory → ℕ → List ℕ → Memory
put_words m a [] = m
put_words m a (w ∷ ws) = put_words (put_int m a w) (a + 4) ws

-- The loop over the tasks: the first that has the number.
unfoldable pub find_task : ℕ → Kernel → (pid : ℤ) → ℕ → Option ℕ
find_task zero k pid i = none
find_task (suc left) k pid i =
    let rest = find_task left k pid (i + 1) in
    if (k.tasks (task_address i)).pid ==ℤ pid then some i else rest

-- `p_stats.remaining_ticks=remaining_quantum`, an int in a word
abbrev pub reported : Kernel → ℕ → Stats
reported k i = record ((k.tasks (task_address i)).p_stats) {
  remaining_ticks =
      (pos_part k.remaining_quantum + (2 ^ 32 - neg_part k.remaining_quantum % 2 ^ 32)) % 2 ^ 32;
}

abbrev pub report : Kernel → Memory → ℕ → Option ℕ → ℤ × Kernel × Memory
report k m st none = (e_srch, k, m)
report k m st (some i) = (
  pos 0,
  set_task k (task_address i) (record (k.tasks (task_address i)) { p_stats = reported k i }),
  put_words m st (words (reported k i)),
)

unfoldable pub sys_get_stats : Kernel → Memory → (pid : ℤ) → (st : ℕ) → ℤ × Kernel × Memory
sys_get_stats k m pid st =
    if not (access_ok verify_write st 28)
    then (e_fault, k, m)
    else if ltb_ℤ pid (pos 0)
    then (e_inval, k, m)
    else report k m st (find_task nr_tasks k pid 0)

-- The structure that a user's program reads.
abbrev pub read_stats : Memory → ℕ → Stats
read_stats m st = record {
  user_ticks = get_int m st;
  system_ticks = get_int m (st + 4);
  blocked_ticks = get_int m (st + 8);
  ready_ticks = get_int m (st + 12);
  elapsed_total_ticks = get_int m (st + 16);
  total_trans = get_int m (st + 20);
  remaining_ticks = get_int m (st + 24);
}

-- All counters are words.
pub record IsWords (s : Stats) : Type 0 where
  pub user : s.user_ticks < 2 ^ 32
  pub system : s.system_ticks < 2 ^ 32
  pub waiting : s.blocked_ticks < 2 ^ 32
  pub ready : s.ready_ticks < 2 ^ 32
  pub elapsed : s.elapsed_total_ticks < 2 ^ 32
  pub trans : s.total_trans < 2 ^ 32
  pub remaining : s.remaining_ticks < 2 ^ 32
