-- ===== src/Links/At.antt =====
-- What a ring says of one of its entries.
use so2_project.Common.{
  ℕ, ◌≡◌, refl, sym, ap, ◌≢◌, List, [], ◌∷◌, ◌++◌, All-append, Fresh, Distinct, ==-self, ==-ne,
  remove,
}
use so2_project.Links.{Store}
use so2_project.Links.Ring.{Chain, IsRing}
use so2_project.Links.Delete.{Chain-split}

-- The first of the entries, or else the end.
abbrev pub first_or : ℕ → List ℕ → ℕ
first_or q [] = q
first_or q (x ∷ xs) = x

Chain-next :
    (s : Store) (e : ℕ) (after : List ℕ) (q : ℕ) → Chain s e after q → (s e).next ≡ first_or q after
Chain-next s e [] q c = c.0
Chain-next s e (y ∷ ys) q c = c.0.0

Distinct-before :
    (before : List ℕ) (e : ℕ) (after : List ℕ) → Distinct (before ++ (e ∷ after)) → Fresh e before
Distinct-before [] e after d = tt
Distinct-before (x ∷ xs) e after d = (
  (λ h. (All-append (λ y. x ≢ y) xs (e ∷ after) d.0).1.0 (sym h)),
  Distinct-before xs e after d.1,
)

Distinct-after :
    (before : List ℕ) (e : ℕ) (after : List ℕ) → Distinct (before ++ (e ∷ after)) → Fresh e after
Distinct-after [] e after d = d.0
Distinct-after (x ∷ xs) e after d = Distinct-after xs e after d.1

remove-middle :
    (before : List ℕ) (e : ℕ) (after : List ℕ)
    → Fresh e before
    → remove e (before ++ (e ∷ after)) ≡ before ++ after
unfolding remove
remove-middle [] e after h = rw (==-self e) refl
remove-middle (x ∷ xs) e after h =
    rw (==-ne e x h.0) (ap (λ (ys : List ℕ). x ∷ ys) (remove-middle xs e after h.1))

module _ {s : Store} {h : ℕ} (before : List ℕ) (e : ℕ) (after : List ℕ)
    (r : IsRing s h (before ++ (e ∷ after))) where
  pub next-IsRing : (s e).next ≡ first_or h after
  next-IsRing = Chain-next s e after h (Chain-split s h e before after h r.chain).1

  pub remove-IsRing : remove e (before ++ (e ∷ after)) ≡ before ++ after
  remove-IsRing = remove-middle before e after (Distinct-before before e after r.distinct)

  pub after-Fresh : Fresh e after
  after-Fresh = Distinct-after before e after r.distinct

  pub after_ne-IsRing : Fresh h after
  after_ne-IsRing = (All-append (λ x. h ≢ x) before (e ∷ after) r.outside).1.1

  pub entry_ne-IsRing : e ≢ h
  entry_ne-IsRing eq = (All-append (λ x. h ≢ x) before (e ∷ after) r.outside).1.0 (sym eq)

pub first-IsRing : {s : Store} {h : ℕ} (xs : List ℕ) → IsRing s h xs → (s h).next ≡ first_or h xs
first-IsRing {s} {h} xs r = Chain-next s h xs h r.chain
