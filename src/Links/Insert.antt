-- ===== src/Links/Insert.antt =====
-- list_add and list_add_tail put an entry in front of the others and behind them.
use so2_project.Common.{
  ℕ, ◌≡◌, sym, ◌≢◌, List, [], ◌∷◌, ◌++◌, arith, All, append-All, Fresh, Distinct,
}
use mathlib.Core.Path.{subst}
use so2_project.Links.{Store, list_add_between, list_add, list_add_tail}
use so2_project.Links.Ring.{Linked, Chain, IsRing, Chain-frame, Chain-last}

pub Fresh-snoc : (a b : ℕ) (xs : List ℕ) → Fresh a xs → a ≢ b → Fresh a (xs ++ (b ∷ []))
Fresh-snoc a b xs f ne = append-All (λ x. a ≢ x) xs (b ∷ []) f (ne, tt)

-- The insertion changes no `next` but that of `prev` and `new`, no `prev` but that of `next` and `new`.
next-insert :
    (s : Store) (new p q : ℕ) (xs : List ℕ)
    → Fresh new xs
    → Fresh p xs
    → All (λ a. (list_add_between s new p q a).next ≡ (s a).next) xs
unfolding list_add_between
next-insert s new p q [] f g = tt
next-insert s new p q (x ∷ xs) f g = (ground arith, next-insert s new p q xs f.1 g.1)

prev-insert :
    (s : Store) (new p q : ℕ) (xs : List ℕ)
    → Fresh new xs
    → Fresh q xs
    → All (λ a. (list_add_between s new p q a).prev ≡ (s a).prev) xs
unfolding list_add_between
prev-insert s new p q [] f g = tt
prev-insert s new p q (x ∷ xs) f g = (ground arith, prev-insert s new p q xs f.1 g.1)

Linked-insert :
    (s : Store) (new p q : ℕ)
    → new ≢ p
    → new ≢ q
    → let t = list_add_between s new p q in Linked t p new × Linked t new q
unfolding list_add_between
Linked-insert s new p q f g = ground arith

add-Chain_cons :
    (s : Store) (new h x : ℕ) (xs : List ℕ)
    → new ≢ h
    → Fresh new (x ∷ xs)
    → Fresh h (x ∷ xs)
    → Distinct (x ∷ xs)
    → Chain s x xs h
    → Chain (list_add_between s new h x) h (new ∷ x ∷ xs) h
add-Chain_cons s new h x xs ne f g d c =
    let (a, b) = Linked-insert s new h x ne f.0 in
    (
      a,
      (
        b,
        Chain-frame s (list_add_between s new h x) x xs h (next-insert s new h x (x ∷ xs) f g)
            (prev-insert s new h x (xs ++ (h ∷ [])) (Fresh-snoc new h xs f.1 ne)
              (Fresh-snoc x h xs d.0 (ground arith)))
            c,
      ),
    )

add-Chain :
    (s : Store) (new h : ℕ) (xs : List ℕ)
    → new ≢ h
    → Fresh new xs
    → Fresh h xs
    → Distinct xs
    → Chain s h xs h
    → Chain (list_add_between s new h (s h).next) h (new ∷ xs) h
add-Chain s new h [] ne f g d c = rw c.0 (Linked-insert s new h h ne ne)
add-Chain s new h (x ∷ xs) ne f g d c =
    subst (λ q. Chain (list_add_between s new h q) h (new ∷ x ∷ xs) h) (sym c.0.0)
      (add-Chain_cons s new h x xs ne f g d c.1)

add_tail-Chain :
    (s : Store) (new a : ℕ) (xs : List ℕ) (h : ℕ)
    → new ≢ h
    → Fresh new (a ∷ xs)
    → Fresh a xs
    → Fresh h xs
    → Distinct xs
    → Chain s a xs h
    → Chain (list_add_between s new (s h).prev h) a (xs ++ (new ∷ [])) h
add_tail-Chain s new a [] h ne f fa fh d c = rw c.1 (Linked-insert s new a h f.0 ne)
add_tail-Chain s new a (x ∷ xs) h ne f fa fh d c =
    (link (Chain-last s a x xs h c.1 fa), add_tail-Chain s new x xs h ne f.1 d.0 fh.1 d.1 c.1)
  where
    link : a ≢ (s h).prev → Linked (list_add_between s new (s h).prev h) a x
    link apart =
        let n = next-insert s new (s h).prev h (a ∷ []) (f.0, tt) (ground arith, tt) in
        let p = prev-insert s new (s h).prev h (x ∷ []) (f.1.0, tt) (fh.0, tt) in ground arith

Distinct-snoc : (b : ℕ) (xs : List ℕ) → Fresh b xs → Distinct xs → Distinct (xs ++ (b ∷ []))
Distinct-snoc b [] f d = (tt, tt)
Distinct-snoc b (x ∷ xs) f d = (Fresh-snoc x b xs d.0 (ground arith), Distinct-snoc b xs f.1 d.1)

module _ {s : Store} {head : ℕ} {xs : List ℕ} (new : ℕ) where
  -- list_add of an address that is neither the head nor an entry of a ring makes it the first entry, and
  -- the others follow in order.
  pub list_add-IsRing :
      IsRing s head xs → new ≢ head → Fresh new xs → IsRing (list_add s new head) head (new ∷ xs)
  unfolding list_add
  list_add-IsRing r ne f = record {
    chain = add-Chain s new head xs ne f r.outside r.distinct r.chain;
    outside = (ground arith, r.outside);
    distinct = (f, r.distinct);
  }

  pub list_add_tail-IsRing :
      IsRing s head xs
      → new ≢ head
      → Fresh new xs
      → IsRing (list_add_tail s new head) head (xs ++ (new ∷ []))
  unfolding list_add_tail
  list_add_tail-IsRing r ne f = record {
    chain = add_tail-Chain s new head xs head ne (ne, f) r.outside r.outside r.distinct r.chain;
    outside = Fresh-snoc head new xs r.outside (ground arith);
    distinct = Distinct-snoc new xs f r.distinct;
  }
