-- ===== src/Regions/Gap.antt =====
-- The search is a first fit.
use so2_project.Common.{
  ℕ, zero, suc, ◌+◌, ◌≤◌, ◌<◌, ◌≡◌, inl, inr, Option, none, some, Bool, true, false, Bool-cases,
  arith, ltb, leb, ltb→lt,
}
use so2_project.Address.{total_pages}
use so2_project.Paging.{PageTable}
use so2_project.Regions.{is_present, Scan, hit, clear, scan, skip, after_scan, find_gap}

-- `n` pages from `s` on are free, and the page after them exists.
pub record IsGap (pt : PageTable) (n s : ℕ) : Type 0 where
  pub room : s + n < total_pages
  pub free : (k : ℕ) → s ≤ k → k < s + n → is_present pt k ≡ false

-- What the inner loop finds.
abbrev pub Scanned : PageTable → (pag left : ℕ) → Scan → Type 0
Scanned pt pag left (hit p) =
    (pag ≤ p) × (p < pag + left) × (p < total_pages) × (is_present pt p ≡ true)
Scanned pt pag left (clear p) =
    (pag ≤ p)
    × (p ≤ pag + left)
    × (p < total_pages → p ≡ pag + left)
    × ((k : ℕ) → pag ≤ k → k < p → is_present pt k ≡ false)

Scanned-next :
    (pt : PageTable) (pag left : ℕ) (r : Scan)
    → is_present pt pag ≡ false
    → Scanned pt (pag + 1) left r
    → Scanned pt pag (suc left) r
Scanned-next pt pag left (hit p) e (a, b, c, d) = (omega arith, omega arith, c, d)
Scanned-next pt pag left (clear p) e (a, b, c, d) =
    (omega arith, omega arith, (λ l. grind (arith, c)), λ k lo hi. grind (arith, d k, e))

scan-Scanned : (left : ℕ) (pt : PageTable) (pag : ℕ) → Scanned pt pag left (scan left pt pag)
unfolding scan
scan-Scanned zero pt pag =
    (omega arith, omega arith, (λ l. omega arith), λ k lo hi. absurd (omega arith))
scan-Scanned (suc left) pt pag = elim (Bool-cases (ltb pag total_pages)) [
  | inr past ↦
      rw past
        (omega arith, omega arith, (λ l. absurd (ground arith)), λ k lo hi. absurd (omega arith))
  | inl inside ↦ elim (Bool-cases (is_present pt pag)) [
    | inl used ↦ rw (inside, used) (omega arith, omega arith, ltb→lt pag total_pages inside, used)
    | inr free ↦
        rw (inside, free)
          (Scanned-next pt pag left (scan left pt (pag + 1)) free (scan-Scanned left pt (pag + 1)))
  ]
]

skip-present :
    (fuel : ℕ) (pt : PageTable) (p : ℕ)
    → (p ≤ skip fuel pt p) × ((k : ℕ) → p ≤ k → k < skip fuel pt p → is_present pt k ≡ true)
unfolding skip
skip-present zero pt p = (omega arith, λ k lo hi. absurd (omega arith))
skip-present (suc fuel) pt p = elim (Bool-cases (ltb p total_pages)) [
  | inr past ↦ rw past (omega arith, λ k lo hi. absurd (omega arith))
  | inl inside ↦ elim (Bool-cases (is_present pt p)) [
    | inr free ↦ rw (inside, free) (omega arith, λ k lo hi. absurd (omega arith))
    | inl used ↦
        let (le, all) = skip-present fuel pt (p + 1) in
        rw (inside, used) (omega arith, λ k lo hi. grind (arith, all k, used))
  ]
]

skip-moves :
    (fuel : ℕ) (pt : PageTable) (p : ℕ)
    → p < total_pages
    → is_present pt p ≡ true
    → p < skip (suc fuel) pt p
unfolding skip
skip-moves fuel pt p l used =
    let inside : ltb p total_pages ≡ true = ground arith in
    let (le, all) = skip-present fuel pt (p + 1) in rw (inside, used) (omega arith)

-- What the search answers: the lowest gap from `s` on, or that there is none.
abbrev pub First : PageTable → (n s : ℕ) → Option ℕ → Type 0
First pt n s none = (g : ℕ) → s ≤ g → ¬ IsGap pt n g
First pt n s (some g) = (s ≤ g) × IsGap pt n g × ((g' : ℕ) → s ≤ g' → g' < g → ¬ IsGap pt n g')

-- No gap begins before `t` if a page in use stands in the way of each.
First-later :
    (pt : PageTable) (n s t : ℕ) (r : Option ℕ)
    → s ≤ t
    → ((g : ℕ) → s ≤ g → g < t → ¬ IsGap pt n g)
    → First pt n t r
    → First pt n s r
First-later pt n s t none le early f = λ g lo gap. elim (Bool-cases (ltb g t)) [
  | inl low ↦ early g lo (ltb→lt g t low) gap
  | inr high ↦ f g (ground arith) gap
]
First-later pt n s t (some g) le early (lo, gap, before) = (
  omega arith,
  gap,
  λ g' lo' hi gap'. elim (Bool-cases (ltb g' t)) [
    | inl low ↦ early g' lo' (ltb→lt g' t low) gap'
    | inr high ↦ before g' (ground arith) hi gap'
  ],
)

-- A page in use between `s` and `s + n`, and the pages in use behind it.
blocked_gaps :
    (pt : PageTable) (n s p t : ℕ)
    → s ≤ p
    → p < s + n
    → p < t
    → 0 < n
    → ((k : ℕ) → p ≤ k → k < t → is_present pt k ≡ true)
    → (g : ℕ) → s ≤ g
    → g < t
    → ¬ IsGap pt n g
blocked_gaps pt n s p t a b c d used g lo hi gap = elim (Bool-cases (leb g p)) [
  | inl before ↦ clash (used p (omega arith) c) (gap.free p (ground arith) (omega arith))
  | inr behind ↦ clash (used g (ground arith) hi) (gap.free g (omega arith) (omega arith))
]
  where
    clash : {b : Bool} → b ≡ true → b ≡ false → ⊥
    clash p q = absurd (ground arith)

after-First :
    (pt : PageTable) (n s : ℕ) (again : ℕ → Option ℕ) (r : Scan)
    → 0 < n
    → Scanned pt s n r
    → ((t : ℕ) → s < t → First pt n t (again t))
    → First pt n s (after_scan pt n s again r)
after-First pt n s again (hit p) pos_n (a, b, c, d) rec =
    let (le, all) = skip-present total_pages pt p in
    let moves = skip-moves 1023 pt p c d in
    let none_before = blocked_gaps pt n s p (skip total_pages pt p) a b moves pos_n all in
    elim (Bool-cases (leb total_pages (skip total_pages pt p))) [
      | inl past ↦ rw past (λ g lo gap. elim (Bool-cases (ltb g (skip total_pages pt p))) [
        | inl low ↦ none_before g lo (ltb→lt g (skip total_pages pt p) low) gap
        | inr high ↦ let room = gap.room in absurd (ground arith)
      ])
      | inr inside ↦ rw inside (
          First-later pt n s (skip total_pages pt p) (again (skip total_pages pt p)) (omega arith)
            none_before (rec (skip total_pages pt p) (omega arith)))
    ]
after-First pt n s again (clear p) pos_n (a, b, c, d) rec = elim (Bool-cases (leb total_pages p)) [
  | inl past ↦ rw past (λ g lo gap. let room = gap.room in absurd (ground arith))
  | inr inside ↦
      let e : p ≡ s + n = c (ground arith) in
      rw inside (
        omega arith,
        record { room = ground arith; free = λ k lo hi. d k lo (omega arith) },
        λ g lo hi. absurd (omega arith),
      )
]

-- From a page `s` on, the search finds the lowest page where as many consecutive pages are free as are asked
-- for, with one page of the address space to spare behind them; it fails exactly if there is no such
-- page. One round for each page of the address space from `s` on is enough.
pub find_gap-First :
    (fuel : ℕ) (pt : PageTable) (n s : ℕ)
    → 0 < n
    → total_pages ≤ s + fuel
    → First pt n s (find_gap fuel pt n s)
unfolding find_gap
find_gap-First zero pt n s pos_n enough = λ g lo gap. let room = gap.room in absurd (omega arith)
find_gap-First (suc fuel) pt n s pos_n enough =
    after-First pt n s (find_gap fuel pt n) (scan n pt s) pos_n (scan-Scanned n pt s)
      (λ t lo. find_gap-First fuel pt n t pos_n (omega arith))
