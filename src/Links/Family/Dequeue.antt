-- ===== src/Links/Family/Dequeue.antt =====
-- list_del on a family of rings.
use so2_project.Common.{
  ℕ, ◌≡◌, sym, ◌≢◌, some, true, List, [], ◌∷◌, ◌++◌, arith, ◌==◌, Bool-cases, inl, inr, All,
  All-append, Fresh, has, has-split, has-remove, remove, All-remove, All-map, Fresh-remove, ==→eq,
}
use mathlib.Core.Path.{subst}
use so2_project.Links.{Store, list_del}
use so2_project.Links.Ring.{Chain, IsRing, IsRing-frame, Chain-last-All, Chain-first-All}
use so2_project.Links.Delete.{list_del-IsRing, Chain-split}
use so2_project.Links.Family.{Family, IsFamily, dequeue, apart}

list_del-other :
    (s : Store) (e a : ℕ) → a ≢ e → a ≢ (s e).prev → a ≢ (s e).next → list_del s e a ≡ s a
unfolding list_del
list_del-other s e a p q r = ground arith

module _ {s : Store} {f : Family} (v : IsFamily s f) (h : ℕ) (head : f.owner h ≡ some h) where
  abbrev OwnByH : ℕ → Type 0
  OwnByH a = f.owner a ≡ some h

  -- The deletion of an entry.
  module _ (e : ℕ) (entry : f.owner e ≡ some h) (ne : e ≢ h) where
    around : OwnByH (s e).prev × OwnByH (s e).next
    around =
        let (before, after, q, r) = has-split e (f.queue h) (v.member e h entry ne) in
        let own : All OwnByH (before ++ (e ∷ after)) = subst (All OwnByH) q (v.owned h head) in
        let o = All-append OwnByH before (e ∷ after) own in
        let c = subst (λ xs. Chain s h xs h) q (v.ring h head).chain in
        let cs = Chain-split s h e before after h c in
        (
          Chain-last-All OwnByH s h before e head o.0 cs.0,
          Chain-first-All OwnByH s e after h head o.1.1 cs.1,
        )

    del-other : (b g : ℕ) → f.owner b ≡ some g → g ≢ h → list_del s e b ≡ s b
    del-other b g o ng =
        list_del-other s e b (apart v h head e b g entry o ng)
          (apart v h head (s e).prev b g around.0 o ng)
          (apart v h head (s e).next b g around.1 o ng)

    del-IsRing : (g : ℕ) → f.owner g ≡ some g → IsRing (list_del s e) g ((dequeue f e h).queue g)
    del-IsRing g o = elim (Bool-cases (g == h)) [
      | inl same ↦
          let eq : g ≡ h = ==→eq g h same in
          let (before, after, q, r) = has-split e (f.queue h) (v.member e h entry ne) in
          rw same
            (rw (eq, r) (list_del-IsRing before e after (subst (IsRing s h) q (v.ring h head))))
      | inr other ↦
          let ng : g ≢ h = ground arith in
          rw other (
            IsRing-frame (f.queue g) (del-other g g o ng)
              (All-map (λ x. f.owner x ≡ some g) (λ x. list_del s e x ≡ s x) (f.queue g)
                (λ x p. del-other x g p ng) (v.owned g o))
              (v.ring g o))
    ]

    del-head : (g : ℕ) → (dequeue f e h).owner g ≡ some g → f.owner g ≡ some g
    del-head g o = ground arith

    del-Owned :
        (g : ℕ) (xs : List ℕ)
        → Fresh e xs
        → All (λ x. f.owner x ≡ some g) xs
        → All (λ x. (dequeue f e h).owner x ≡ some g) xs
    del-Owned g [] d o = tt
    del-Owned g (x ∷ xs) d o = (ground arith, del-Owned g xs d.1 o.1)

    -- Nothing of the ring is the deleted entry any more, for its entries are all different.
    removed_Fresh : Fresh e (remove e (f.queue h))
    removed_Fresh = Fresh-remove e (f.queue h) (v.ring h head).distinct

    del-owned :
        (g : ℕ)
        → f.owner g ≡ some g
        → All (λ x. (dequeue f e h).owner x ≡ some g) ((dequeue f e h).queue g)
    del-owned g o = elim (Bool-cases (g == h)) [
      | inl same ↦
          let eq : g ≡ h = ==→eq g h same in
          rw same (
            rw eq (
              del-Owned h (remove e (f.queue h)) removed_Fresh
                (All-remove OwnByH e (f.queue h) (v.owned h head))))
      | inr other ↦
          let ng : g ≢ h = ground arith in
          rw other (
            del-Owned g (f.queue g)
              (All-map (λ x. f.owner x ≡ some g) (λ x. e ≢ x) (f.queue g)
                (λ x p q. apart v h head e x g entry p ng (sym q)) (v.owned g o))
              (v.owned g o))
    ]

    del-member :
        (b g : ℕ)
        → (dequeue f e h).owner b ≡ some g
        → b ≢ g
        → has b ((dequeue f e h).queue g) ≡ true
    del-member b g o nb = ground (arith, has-remove e b (f.queue h), v.member b g)

    -- list_del on an entry of any of the rings of a store takes that entry out of its ring and leaves the
    -- order of the others there, and all other rings, as they were; the entry is in no ring then.
    pub list_del-IsFamily : IsFamily (list_del s e) (dequeue f e h)
    list_del-IsFamily = record {
      ring = λ g o. del-IsRing g (del-head g o);
      owned = λ g o. del-owned g (del-head g o);
      member = del-member;
      heads = λ b g o. ground (arith, v.heads b g);
    }
