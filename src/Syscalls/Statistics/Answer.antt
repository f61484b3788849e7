-- ===== src/Syscalls/Statistics/Answer.antt =====
-- What sys_get_stats answers, and what a program reads.
use so2_project.Syscalls.Statistics.{
  words, put_words, find_task, reported, report, sys_get_stats, read_stats, IsWords,
}
use so2_project.Common.{
  ℕ, zero, suc, ◌+◌, ◌*◌, ◌^◌, ◌≤◌, ◌<◌, ◌≡◌, refl, ℤ, pos, ltb_ℤ, ◌==ℤ◌, ==ℤ→eq, ==→eq, ◌⊎◌,
  Option, none, some, true, false, Bool-cases, inl, inr, List, [], ◌∷◌, ◌∙◌, All, length, get_or,
  arith, ◌==◌,
}
use so2_project.Stats.{Stats}
use so2_project.Utils.{Memory, access_ok, verify_write}
use so2_project.Kernel.{Kernel, task_address}
use so2_project.Regions.Dynamic.{put_int, get_int}
use so2_project.Regions.RoundTrip.{get_int-put_int}
use so2_project.Syscalls.{e_srch}

get_int-put_int_other :
    (m : Memory) (a b v : ℕ) → a + 4 ≤ b → get_int (put_int m b v) a ≡ get_int m a
get_int-put_int_other m a b v l = ground arith

-- Words that are written further up.
get_int-put_words :
    (m : Memory) (a b : ℕ) (ws : List ℕ) → a + 4 ≤ b → get_int (put_words m b ws) a ≡ get_int m a
unfolding put_words
get_int-put_words m a b [] l = refl
get_int-put_words m a b (w ∷ ws) l =
    get_int-put_words (put_int m b w) a (b + 4) ws (omega arith) ∙ get_int-put_int_other m a b w l

-- The word at place `j`.
get_int-nth :
    (ws : List ℕ) (m : Memory) (b j : ℕ)
    → All (λ w. w < 2 ^ 32) ws
    → j < length ws
    → get_int (put_words m b ws) (b + 4 * j) ≡ get_or ws j 0
unfolding put_words
get_int-nth [] m b j v l = absurd (omega arith)
get_int-nth (w ∷ ws) m b zero v l =
    let e : b + 4 * 0 ≡ b = omega arith in
    rw e (get_int-put_words (put_int m b w) b (b + 4) ws (omega arith) ∙ get_int-put_int m b w v.0)
get_int-nth (w ∷ ws) m b (suc j) v l =
    let e : b + 4 * suc j ≡ b + 4 + 4 * j = omega arith in
    rw e (get_int-nth ws (put_int m b w) (b + 4) j v.1 (omega arith))

Stats-ext :
    (s t : Stats)
    → s.user_ticks ≡ t.user_ticks
    → s.system_ticks ≡ t.system_ticks
    → s.blocked_ticks ≡ t.blocked_ticks
    → s.ready_ticks ≡ t.ready_ticks
    → s.elapsed_total_ticks ≡ t.elapsed_total_ticks
    → s.total_trans ≡ t.total_trans
    → s.remaining_ticks ≡ t.remaining_ticks
    → s ≡ t
Stats-ext s t a b c d e f g = λ i. record {
  user_ticks = a i;
  system_ticks = b i;
  blocked_ticks = c i;
  ready_ticks = d i;
  elapsed_total_ticks = e i;
  total_trans = f i;
  remaining_ticks = g i;
}

-- A structure of words that is written is what a program reads.
read_stats-put_words :
    (m : Memory) (st : ℕ) (s : Stats) → IsWords s → read_stats (put_words m st (words s)) st ≡ s
read_stats-put_words m st s v =
    let word = get_int-nth (words s) m st in
    let all : All (λ w. w < 2 ^ 32) (words s) =
      (v.user, (v.system, (v.waiting, (v.ready, (v.elapsed, (v.trans, (v.remaining, tt))))))) in
    Stats-ext (read_stats (put_words m st (words s)) st) s
      (rw (start st) at (word 0 all (omega arith))) (word 1 all (omega arith))
      (word 2 all (omega arith)) (word 3 all (omega arith)) (word 4 all (omega arith))
      (word 5 all (omega arith)) (word 6 all (omega arith))
  where
    start : (a : ℕ) → a + 4 * 0 ≡ a
    start a = omega arith

-- What the search answers: the first task with the number, or that there is none.
abbrev pub FirstTask : Kernel → (pid : ℤ) → (i left : ℕ) → Option ℕ → Type 0
FirstTask k pid i left none =
    (j : ℕ) → i ≤ j → j < i + left → ((k.tasks (task_address j)).pid ==ℤ pid) ≡ false
FirstTask k pid i left (some n) =
    (i ≤ n)
    × (n < i + left)
    × ((k.tasks (task_address n)).pid ≡ pid)
    × ((j : ℕ) → i ≤ j → j < n → ((k.tasks (task_address j)).pid ==ℤ pid) ≡ false)

FirstTask-next :
    (k : Kernel) (pid : ℤ) (i left : ℕ) (o : Option ℕ)
    → ((k.tasks (task_address i)).pid ==ℤ pid) ≡ false
    → FirstTask k pid (i + 1) left o
    → FirstTask k pid i (suc left) o
FirstTask-next k pid i left none e h = λ j lo hi. elim (Bool-cases (j == i)) [
  | inl same ↦ let q : j ≡ i = ==→eq j i same in rw q e
  | inr other ↦ h j (ground arith) (omega arith)
]
FirstTask-next k pid i left (some n) e (lo, hi, found, before) = (
  omega arith,
  omega arith,
  found,
  λ j lo' hi'. elim (Bool-cases (j == i)) [
    | inl same ↦ let q : j ≡ i = ==→eq j i same in rw q e
    | inr other ↦ before j (ground arith) hi'
  ],
)

find_task-First :
    (left : ℕ) (k : Kernel) (pid : ℤ) (i : ℕ) → FirstTask k pid i left (find_task left k pid i)
unfolding find_task
find_task-First zero k pid i = λ j lo hi. absurd (omega arith)
find_task-First (suc left) k pid i = elim (Bool-cases ((k.tasks (task_address i)).pid ==ℤ pid)) [
  | inl here ↦ rw here (
    omega arith,
    omega arith,
    ==ℤ→eq (k.tasks (task_address i)).pid pid here,
    λ j lo hi. absurd (omega arith),
  )
  | inr other ↦ rw other (
      FirstTask-next k pid i left (find_task left k pid (i + 1)) other
        (find_task-First left k pid (i + 1)))
]

-- What the call leaves.
abbrev pub Reported : Kernel → Memory → (pid : ℤ) → (st : ℕ) → ℤ × Kernel × Memory → Type 0
Reported k m pid st r =
    ((r ≡ (e_srch, k, m)) × FirstTask k pid 0 10 none)
    ⊎ ((n : ℕ) × FirstTask k pid 0 10 (some n)
        × (r.0 ≡ pos 0)
        × (read_stats r.2 st ≡ reported k n)
        × ((r.1.tasks (task_address n)).p_stats ≡ reported k n))

report-Reported :
    (k : Kernel) (m : Memory) (pid : ℤ) (st : ℕ) (o : Option ℕ)
    → ((i : ℕ) → IsWords (reported k i))
    → FirstTask k pid 0 10 o
    → Reported k m pid st (report k m st o)
report-Reported k m pid st none v h = inl (refl, h)
report-Reported k m pid st (some n) v h =
    inr (n, h, refl, read_stats-put_words m st (reported k n) (v n), ground arith)

-- When a program may write a structure of 28 bytes at `st`, the number asked for is not negative and the counters
-- of the tasks are words, sys_get_stats finds the first of the ten task structures with that number,
-- returns 0 and leaves at `st` the counters of that task, with the quantum that is left; or it answers -ESRCH
-- and changes nothing, and no task structure has the number.
pub sys_get_stats-Reported :
    (k : Kernel) (m : Memory) (pid : ℤ) (st : ℕ)
    → access_ok verify_write st 28 ≡ true
    → ltb_ℤ pid (pos 0) ≡ false
    → ((i : ℕ) → IsWords (reported k i))
    → Reported k m pid st (sys_get_stats k m pid st)
unfolding sys_get_stats
sys_get_stats-Reported k m pid st ok sign v =
    rw (ok, sign) (report-Reported k m pid st (find_task 10 k pid 0) v (find_task-First 10 k pid 0))
