-- ===== src/Common/Lists.antt =====
-- Lists measured and indexed by native numbers, under the library's names.
use Prim.Native.Nat.{ℕ, zero, suc, ◌+◌, ◌<◌}
use mathlib.Core.Path.{◌≡◌, refl, ap}
use mathlib.Core.Logic.{◌≢◌}
use mathlib.Core.List.{List, [], ◌∷◌, ◌++◌}
use mathlib.Core.Logic.{◌⊎◌, inl, inr}
use mathlib.Core.Bool.{Bool, true, false, ◌||◌, false≢true}
use so2_project.Common.Tests.{◌==◌, if◌then◌else◌, Bool-cases}
use native.Mathlib.Omega.{arith}

module _ {ℓ} {A : Type ℓ} where
  abbrev pub length : List A → ℕ
  length [] = 0
  length (x ∷ xs) = suc (length xs)

  abbrev pub get_or : List A → ℕ → A → A
  get_or [] i d = d
  get_or (x ∷ xs) zero d = x
  get_or (x ∷ xs) (suc i) d = get_or xs i d

  -- A write out of bounds changes nothing.
  abbrev pub set : List A → ℕ → A → List A
  set [] i v = []
  set (x ∷ xs) zero v = v ∷ xs
  set (x ∷ xs) (suc i) v = x ∷ set xs i v

  abbrev pub take : ℕ → List A → List A
  take zero xs = []
  take (suc n) [] = []
  take (suc n) (x ∷ xs) = x ∷ take n xs

  abbrev pub drop : ℕ → List A → List A
  drop zero xs = xs
  drop (suc n) [] = []
  drop (suc n) (x ∷ xs) = drop n xs

  -- Every element has the property.
  abbrev pub All {κ} : (A → Type κ) → List A → Type κ
  All P [] = Unit
  All P (x ∷ xs) = P x × All P xs

  pub List-cases : (xs : List A) → (xs ≡ []) ⊎ ((x : A) × (r : List A) × (xs ≡ x ∷ r))
  List-cases [] = inl refl
  List-cases (x ∷ xs) = inr (x, xs, refl)

  pub length-append : (xs ys : List A) → length (xs ++ ys) ≡ length xs + length ys
  length-append [] ys = omega arith
  length-append (x ∷ xs) ys = omega (arith, length-append xs ys)

  pub length-set : (xs : List A) (i : ℕ) (v : A) → length (set xs i v) ≡ length xs
  length-set [] i v = refl
  length-set (x ∷ xs) zero v = refl
  length-set (x ∷ xs) (suc i) v = ap suc (length-set xs i v)

  pub get_or-set_self :
      (xs : List A) (i : ℕ) (v d : A) → i < length xs → get_or (set xs i v) i d ≡ v
  get_or-set_self [] i v d h = absurd (omega arith)
  get_or-set_self (x ∷ xs) zero v d h = refl
  get_or-set_self (x ∷ xs) (suc i) v d h = get_or-set_self xs i v d (omega arith)

  pub get_or-set_ne :
      (xs : List A) {i j : ℕ} (v d : A) → i ≢ j → get_or (set xs i v) j d ≡ get_or xs j d
  get_or-set_ne [] v d h = refl
  get_or-set_ne (x ∷ xs) {i = zero} {j = zero} v d h = absurd (h refl)
  get_or-set_ne (x ∷ xs) {i = zero} {j = suc j} v d h = refl
  get_or-set_ne (x ∷ xs) {i = suc i} {j = zero} v d h = refl
  get_or-set_ne (x ∷ xs) {i = suc i} {j = suc j} v d h = get_or-set_ne xs v d (λ e. h (ap suc e))

  pub All-append {κ} : (P : A → Type κ) (xs ys : List A) → All P (xs ++ ys) → All P xs × All P ys
  All-append P [] ys h = (tt, h)
  All-append P (x ∷ xs) ys h = let r = All-append P xs ys h.1 in ((h.0, r.0), r.1)

  pub append-All {κ} : (P : A → Type κ) (xs ys : List A) → All P xs → All P ys → All P (xs ++ ys)
  append-All P [] ys h k = k
  append-All P (x ∷ xs) ys h k = (h.0, append-All P xs ys h.1 k)

-- `a` is not among the list.
abbrev pub Fresh : ℕ → List ℕ → Type 0
Fresh a = All (λ x. a ≢ x)

abbrev pub Distinct : List ℕ → Type 0
Distinct [] = Unit
Distinct (x ∷ xs) = Fresh x xs × Distinct xs

-- Membership as a test, and the list without an element.
abbrev pub has : ℕ → List ℕ → Bool
has a [] = false
has a (x ∷ xs) = a == x || has a xs

unfoldable pub remove : ℕ → List ℕ → List ℕ
remove a [] = []
remove a (x ∷ xs) = if a == x then xs else x ∷ remove a xs

pub has-append : (a : ℕ) (xs ys : List ℕ) → has a (xs ++ ys) ≡ (has a xs || has a ys)
has-append a [] ys = refl
has-append a (x ∷ xs) ys = ground (arith, has-append a xs ys)

pub has-split :
    (a : ℕ) (xs : List ℕ)
    → has a xs ≡ true
    → (before : List ℕ) × (after : List ℕ) × (xs ≡ before ++ (a ∷ after))
      × (remove a xs ≡ before ++ after)
unfolding remove
has-split a [] h = absurd (false≢true h)
has-split a (x ∷ xs) h = elim (Bool-cases (a == x)) [
  | inl here ↦ let e : x ≡ a = ground arith in ([], xs, ap (λ (y : ℕ). y ∷ xs) e, rw here)
  | inr there ↦
      let (before, after, e, f) = has-split a xs (ground arith) in
      (x ∷ before, after, ap (λ (ys : List ℕ). x ∷ ys) e, rw there (ap (λ (ys : List ℕ). x ∷ ys) f))
]

pub has-remove : (a b : ℕ) (xs : List ℕ) → has b xs ≡ true → b ≢ a → has b (remove a xs) ≡ true
unfolding remove
has-remove a b [] h ne = h
has-remove a b (x ∷ xs) h ne = ground (arith, has-remove a b xs)

pub All-remove {κ} : (P : ℕ → Type κ) (a : ℕ) (xs : List ℕ) → All P xs → All P (remove a xs)
unfolding remove
All-remove P a [] h = tt
All-remove P a (x ∷ xs) h = elim (Bool-cases (a == x)) [
  | inl here ↦ rw here h.1
  | inr there ↦ rw there (h.0, All-remove P a xs h.1)
]

pub All-map {κ μ} :
    {A : Type 0} (P : A → Type κ) (Q : A → Type μ) (xs : List A)
    → ((x : A) → P x → Q x)
    → All P xs
    → All Q xs
All-map P Q [] f h = tt
All-map P Q (x ∷ xs) f h = (f x h.0, All-map P Q xs f h.1)

-- Of a list without repetition an element is removed whole.
pub Fresh-remove : (a : ℕ) (xs : List ℕ) → Distinct xs → Fresh a (remove a xs)
unfolding remove
Fresh-remove a [] d = tt
Fresh-remove a (x ∷ xs) d = elim (Bool-cases (a == x)) [
  | inl here ↦ let e : x ≡ a = ground arith in rw here (let f : Fresh a xs = rw (← e) d.0 in f)
  | inr there ↦ rw there (ground arith, Fresh-remove a xs d.1)
]
