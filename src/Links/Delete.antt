-- ===== src/Links/Delete.antt =====
-- list_del takes an entry out of its ring, wherever it stands.
use so2_project.Common.{
  ℕ, ◌≡◌, refl, ◌≢◌, List, [], ◌∷◌, ◌++◌, arith, All, All-append, append-All, Fresh, Distinct, ◌==◌,
  if◌then◌else◌, fun_ext,
}
use mathlib.Core.Path.{subst, sym}
use so2_project.Links.{Store, list_del}
use so2_project.Links.Ring.{Linked, Chain, IsRing, Chain-frame, Chain-last, Chain-first}
use so2_project.Links.Insert.{Fresh-snoc}

-- The store after `e` between `p` and `q` is taken out.
abbrev cut : Store → (e p q : ℕ) → Store
cut s e p q a =
    if a == e
    then record { next = 0; prev = 0 }
    else record { next = if a == p then q else (s a).next; prev = if a == q then p else (s a).prev }

next-cut :
    (s : Store) (e p q : ℕ) (xs : List ℕ)
    → Fresh e xs
    → Fresh p xs
    → All (λ a. (cut s e p q a).next ≡ (s a).next) xs
next-cut s e p q [] f g = tt
next-cut s e p q (x ∷ xs) f g = (ground arith, next-cut s e p q xs f.1 g.1)

prev-cut :
    (s : Store) (e p q : ℕ) (xs : List ℕ)
    → Fresh e xs
    → Fresh q xs
    → All (λ a. (cut s e p q a).prev ≡ (s a).prev) xs
prev-cut s e p q [] f g = tt
prev-cut s e p q (x ∷ xs) f g = (ground arith, prev-cut s e p q xs f.1 g.1)

Linked-cut : (s : Store) (e p q : ℕ) → e ≢ p → e ≢ q → Linked (cut s e p q) p q
Linked-cut s e p q f g = ground arith

-- The entry stands right behind `a`.
cut-Chain_here :
    (s : Store) (a e : ℕ) (ys : List ℕ) (h q : ℕ)
    → (s e).next ≡ q
    → e ≢ a
    → e ≢ h
    → Fresh e ys
    → Fresh a ys
    → Fresh h ys
    → Distinct ys
    → Chain s e ys h
    → Chain (cut s e a q) a ys h
cut-Chain_here s a e [] h q n ea eh fe fa fh d c =
    let n' : q ≡ h = ground arith in rw n' (Linked-cut s e a h ea eh)
cut-Chain_here s a e (y ∷ ys) h q n ea eh fe fa fh d c =
    let n' : q ≡ y = ground arith in
    subst (λ z. Chain (cut s e a z) a (y ∷ ys) h) (sym n')
      (
        Linked-cut s e a y ea fe.0,
        Chain-frame s (cut s e a y) y ys h (next-cut s e a y (y ∷ ys) fe fa)
            (prev-cut s e a y (ys ++ (h ∷ [])) (Fresh-snoc e h ys fe.1 eh)
              (Fresh-snoc y h ys d.0 (ground arith)))
            c.1,
      )

pub Chain-split :
    (s : Store) (a e : ℕ) (xs ys : List ℕ) (h : ℕ)
    → Chain s a (xs ++ (e ∷ ys)) h
    → Chain s a xs e × Chain s e ys h
Chain-split s a e [] ys h c = (c.0, c.1)
Chain-split s a e (x ∷ xs) ys h c = let r = Chain-split s x e xs ys h c.1 in ((c.0, r.0), r.1)

Fresh-split :
    (a e : ℕ) (xs ys : List ℕ) → Fresh a (xs ++ (e ∷ ys)) → Fresh a xs × (a ≢ e) × Fresh a ys
Fresh-split a e xs ys f = let r = All-append (λ x. a ≢ x) xs (e ∷ ys) f in (r.0, r.1.0, r.1.1)

-- `Fresh` is symmetric: an entry in the middle differs from those before it.
Distinct-split :
    (e : ℕ) (xs ys : List ℕ) → Distinct (xs ++ (e ∷ ys)) → Fresh e xs × Fresh e ys × Distinct ys
Distinct-split e [] ys d = (tt, d.0, d.1)
Distinct-split e (x ∷ xs) ys d =
    let r = Distinct-split e xs ys d.1 in
    let f = Fresh-split x e xs ys d.0 in ((ground arith, r.0), r.1, r.2)

Distinct-without : (e : ℕ) (xs ys : List ℕ) → Distinct (xs ++ (e ∷ ys)) → Distinct (xs ++ ys)
Distinct-without e [] ys d = d.1
Distinct-without e (x ∷ xs) ys d =
    let f = Fresh-split x e xs ys d.0 in
    (append-All (λ z. x ≢ z) xs ys f.0 f.2, Distinct-without e xs ys d.1)

cut-Chain :
    (s : Store) (a e : ℕ) (xs ys : List ℕ) (h : ℕ)
    → Fresh a (xs ++ (e ∷ ys))
    → Fresh h (xs ++ (e ∷ ys))
    → Distinct (xs ++ (e ∷ ys))
    → Chain s a (xs ++ (e ∷ ys)) h
    → Chain (cut s e (s e).prev (s e).next) a (xs ++ ys) h
cut-Chain s a e [] ys h fa fh d c =
    subst (λ p. Chain (cut s e p (s e).next) a ys h) (sym c.0.1)
      (cut-Chain_here s a e ys h (s e).next (refl) (ground arith) (ground arith) d.0 fa.1 fh.1 d.1
        c.1)
cut-Chain s a e (x ∷ xs) ys h fa fh d c = (link, cut-Chain s x e xs ys h d.0 fh.1 d.1 c.1)
  where
    link : Linked (cut s e (s e).prev (s e).next) a x
    link =
        let r = Chain-split s x e xs ys h c.1 in
        let fx = Fresh-split x e xs ys d.0 in
        let fa' = Fresh-split a e xs ys fa.1 in
        let before = Chain-last s a x xs e r.0 (fa.0, fa'.0) in
        let behind = Chain-first s x e ys h r.1 fx.2 (ground arith) in
        let ae = fa'.1 in let xe = fx.1 in ground arith

list_del-cut : (s : Store) (e : ℕ) → list_del s e ≡ cut s e (s e).prev (s e).next
unfolding list_del
list_del-cut s e = fun_ext λ a. ground arith

module _ {s : Store} {head : ℕ} (xs : List ℕ) (e : ℕ) (ys : List ℕ) where
  -- The other entries stay, in order.
  pub list_del-IsRing : IsRing s head (xs ++ (e ∷ ys)) → IsRing (list_del s e) head (xs ++ ys)
  list_del-IsRing r = record {
    chain =
        rw (list_del-cut s e)
          (cut-Chain s head e xs ys head r.outside r.outside r.distinct r.chain);
    outside =
        let f = Fresh-split head e xs ys r.outside in append-All (λ x. head ≢ x) xs ys f.0 f.2;
    distinct = Distinct-without e xs ys r.distinct;
  }
