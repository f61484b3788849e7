-- ===== src/Links/Ring.antt =====
-- What a list head stands for: the entries of its ring, in order.
use so2_project.Common.{
  ℕ, ◌≡◌, refl, ◌≢◌, List, [], ◌∷◌, ◌++◌, true, false, arith, All, Fresh, Distinct,
}
use so2_project.Links.{Store, list_empty, list_first, init_list_head}

-- `p` and `q` point at each other.
abbrev pub Linked : Store → ℕ → ℕ → Type 0
Linked s p q = ((s p).next ≡ q) × ((s q).prev ≡ p)

-- From `p` the pointers lead through `xs` to `q`, and back.
abbrev pub Chain : Store → ℕ → List ℕ → ℕ → Type 0
Chain s p [] q = Linked s p q
Chain s p (x ∷ xs) q = Linked s p x × Chain s x xs q

-- The ring of `head` holds the entries `xs`, all different.
pub record IsRing (s : Store) (head : ℕ) (xs : List ℕ) : Type 0 where
  pub chain : Chain s head xs head
  pub outside : Fresh head xs
  pub distinct : Distinct xs

-- A chain reads the `next` of what it leaves and the `prev` of what it enters.
pub Chain-frame :
    (s t : Store) (p : ℕ) (xs : List ℕ) (q : ℕ)
    → All (λ a. (t a).next ≡ (s a).next) (p ∷ xs)
    → All (λ a. (t a).prev ≡ (s a).prev) (xs ++ (q ∷ []))
    → Chain s p xs q
    → Chain t p xs q
Chain-frame s t p [] q n m c = ground arith
Chain-frame s t p (x ∷ xs) q n m c = (ground arith, Chain-frame s t x xs q n.1 m.1 c.1)

-- The last entry is the `prev` of the end.
pub Chain-last :
    (s : Store) (a x : ℕ) (xs : List ℕ) (q : ℕ) → Chain s x xs q → Fresh a (x ∷ xs) → a ≢ (s q).prev
Chain-last s a x [] q c f = ground arith
Chain-last s a x (y ∷ ys) q c f = Chain-last s a y ys q c.1 f.1

-- The first entry is the `next` of the start.
pub Chain-first :
    (s : Store) (a e : ℕ) (xs : List ℕ) (q : ℕ)
    → Chain s e xs q
    → Fresh a xs
    → a ≢ q
    → a ≢ (s e).next
Chain-first s a e [] q c f ne = ground arith
Chain-first s a e (y ∷ ys) q c f ne = ground arith

-- `list_empty` tells exactly whether the ring has no entry.
pub list_empty-nil : {s : Store} {head : ℕ} → IsRing s head [] → list_empty s head ≡ true
unfolding list_empty
list_empty-nil r = ground arith

pub list_empty-cons :
    {s : Store} {head x : ℕ} {xs : List ℕ} → IsRing s head (x ∷ xs) → list_empty s head ≡ false
unfolding list_empty
list_empty-cons r = ground arith

pub list_first-cons :
    {s : Store} {head x : ℕ} {xs : List ℕ} → IsRing s head (x ∷ xs) → list_first s head ≡ x
list_first-cons r = r.chain.0.0

pub init_list_head-IsRing : (s : Store) (l : ℕ) → IsRing (init_list_head s l) l []
unfolding init_list_head
init_list_head-IsRing s l = ground arith

-- Entries and heads that a change leaves alone keep their rings.
pub IsRing-frame :
    {s t : Store} {head : ℕ} (xs : List ℕ)
    → (t head ≡ s head)
    → All (λ a. t a ≡ s a) xs
    → IsRing s head xs
    → IsRing t head xs
IsRing-frame {s} {t} {head} xs h same r = record {
  chain = Chain-frame s t head xs head (next_head, nexts xs same) (prevs xs same) r.chain;
  outside = r.outside;
  distinct = r.distinct;
}
  where
    next_head : (t head).next ≡ (s head).next
    next_head = rw h refl

    nexts : (ys : List ℕ) → All (λ a. t a ≡ s a) ys → All (λ a. (t a).next ≡ (s a).next) ys
    nexts [] k = tt
    nexts (y ∷ ys) k = (rw k.0 refl, nexts ys k.1)

    prevs :
        (ys : List ℕ)
        → All (λ a. t a ≡ s a) ys
        → All (λ a. (t a).prev ≡ (s a).prev) (ys ++ (head ∷ []))
    prevs [] k = (rw h refl, tt)
    prevs (y ∷ ys) k = (rw k.0 refl, prevs ys k.1)

-- What holds of the start and of the entries holds of the `prev` of the end.
pub Chain-last-All :
    (P : ℕ → Type 0) (s : Store) (a : ℕ) (xs : List ℕ) (q : ℕ)
    → P a
    → All P xs
    → Chain s a xs q
    → P (s q).prev
Chain-last-All P s a [] q h hs c = rw c.1 h
Chain-last-All P s a (x ∷ xs) q h hs c = Chain-last-All P s x xs q hs.0 hs.1 c.1

pub Chain-first-All :
    (P : ℕ → Type 0) (s : Store) (a : ℕ) (xs : List ℕ) (q : ℕ)
    → P q
    → All P xs
    → Chain s a xs q
    → P (s a).next
Chain-first-All P s a [] q h hs c = rw c.0 h
Chain-first-All P s a (x ∷ xs) q h hs c = rw c.0.0 hs.0
