-- ===== src/Common/Loop.antt =====
-- Counted loops, `for (k = i; k < i + n; k++) s = body k s`, and what the commonest of them do.
use Prim.Native.Nat.{ℕ, zero, suc, ◌+◌, ◌≤◌, ◌<◌}
use mathlib.Core.Path.{◌≡◌, refl}
use mathlib.Core.Bool.{◌&&◌}
use native.Mathlib.Omega.{arith}
use so2_project.Common.Tests.{ltb, leb, if◌then◌else◌, update}

-- Shut, so that no tactic runs a loop of a thousand rounds; a test names it on its `unfolding` line.
unfoldable pub for_range {ℓ} : {S : Type ℓ} → ℕ → ℕ → (ℕ → S → S) → S → S
for_range zero first round state = state
for_range (suc rounds) first round state = for_range rounds (first + 1) round (round first state)

pub for_range-zero {ℓ} : {S : Type ℓ} (i : ℕ) (body : ℕ → S → S) (s : S) → for_range 0 i body s ≡ s
unfolding for_range
for_range-zero i body s = refl

pub for_range-suc {ℓ} :
    {S : Type ℓ} (n i : ℕ) (body : ℕ → S → S) (s : S)
    → for_range (suc n) i body s ≡ for_range n (i + 1) body (body i s)
unfolding for_range
for_range-suc n i body s = refl

-- A property that every round keeps, with the rounds' bounds at hand.
pub for_range_inv {ℓ κ} :
    {S : Type ℓ} (P : ℕ → S → Type κ) (body : ℕ → S → S) (n i j : ℕ) (s : S)
    → ((k : ℕ) (t : S) → i ≤ k → k < j → P k t → P (k + 1) (body k t))
    → i + n ≡ j
    → P i s
    → P j (for_range n i body s)
unfolding for_range
for_range_inv P body zero i j s keep e h = let e' : i ≡ j = omega arith in rw (← e') h
for_range_inv P body (suc n) i j s keep e h =
    for_range_inv P body n (i + 1) j (body i s) (λ k t lo hi. keep k t (omega arith) hi)
      (omega arith) (keep i s (omega arith) (omega arith) h)

-- The loop that fills a range of an array.
pub for_range-fill {ℓ} :
    {A : Type ℓ} (n i : ℕ) (v : A) (f : ℕ → A) (k : ℕ)
    → for_range n i (λ j m. update m j v) f k ≡ (if leb i k && ltb k (i + n) then v else f k)
unfolding for_range
for_range-fill zero i v f k = ground arith
for_range-fill (suc n) i v f k = ground (arith, for_range-fill n (i + 1) v (update f i v) k)

-- The loop that rewrites each cell of a range by a function of its index and its old value.
pub for_range-map {ℓ} :
    {A : Type ℓ} (n i : ℕ) (g : ℕ → A → A) (f : ℕ → A) (k : ℕ)
    → for_range n i (λ j m. update m j (g j (m j))) f k
      ≡ (if leb i k && ltb k (i + n) then g k (f k) else f k)
unfolding for_range
for_range-map zero i g f k = ground arith
for_range-map (suc n) i g f k = ground (arith, for_range-map n (i + 1) g (update f i (g i (f i))) k)

-- Two loops, one after the other.
pub for_range-append {ℓ} :
    {S : Type ℓ} (m n i : ℕ) (body : ℕ → S → S) (s : S)
    → for_range (m + n) i body s ≡ for_range n (i + m) body (for_range m i body s)
unfolding for_range
for_range-append zero n i body s =
    let p : 0 + n ≡ n = omega arith in let q : i + 0 ≡ i = omega arith in rw (p, q) refl
for_range-append (suc m) n i body s =
    let p : suc m + n ≡ suc (m + n) = omega arith in
    let q : i + suc m ≡ i + 1 + m = omega arith in
    rw (p, q) (for_range-append m n (i + 1) body (body i s))

-- Loops that start elsewhere and do the same in each round.
pub for_range-shift {ℓ} :
    {S : Type ℓ} (n i j : ℕ) (body other : ℕ → S → S) (s : S)
    → ((k : ℕ) (t : S) → k < n → body (i + k) t ≡ other (j + k) t)
    → for_range n i body s ≡ for_range n j other s
unfolding for_range
for_range-shift zero i j body other s same = refl
for_range-shift (suc n) i j body other s same =
    let p : i + 0 ≡ i = omega arith in
    let q : j + 0 ≡ j = omega arith in
    let first : body i s ≡ other j s = rw (p, q) at (same 0 s (omega arith)) in
    rw first (
      for_range-shift n (i + 1) (j + 1) body other (other j s) (λ k t l.
        let p' : i + 1 + k ≡ i + (k + 1) = omega arith in
        let q' : j + 1 + k ≡ j + (k + 1) = omega arith in
        rw (p', q') (same (k + 1) t (omega arith))))
