-- ===== src/Links/Family/Grow.antt =====
-- A ring of a family that gets one entry more, wherever it is put.
use so2_project.Common.{
  ℕ, ◌≡◌, ◌≢◌, none, some, true, List, arith, ◌==◌, Bool-cases, inl, inr, All, Fresh, has, All-map,
  ==→eq, update,
}
use so2_project.Links.{Store}
use so2_project.Links.Ring.{IsRing, IsRing-frame}
use so2_project.Links.Family.{Family, IsFamily, apart}

-- The entry `a` is new in the ring of `h`, which holds `xs` then.
abbrev pub grow : Family → (a h : ℕ) → List ℕ → Family
grow f a h xs = record { owner = update f.owner a (some h); queue = update f.queue h xs }

module _ {s : Store} {f : Family} (v : IsFamily s f) (h : ℕ) (head : f.owner h ≡ some h) (a : ℕ)
    (unused : f.owner a ≡ none) where
  pub not_owned-Fresh : (xs : List ℕ) → All (λ x. f.owner x ≡ some h) xs → Fresh a xs
  not_owned-Fresh xs o =
      All-map (λ x. f.owner x ≡ some h) (λ x. a ≢ x) xs (λ x p e. absurd (clash x p e)) o
    where
      clash : (x : ℕ) → f.owner x ≡ some h → a ≡ x → ⊥
      clash x p e = ground arith

  pub ne_head : a ≢ h
  ne_head e = absurd (ground arith)

  pub still-Owned :
      (g : ℕ) (ys xs : List ℕ)
      → All (λ x. f.owner x ≡ some g) xs
      → All (λ x. (grow f a h ys).owner x ≡ some g) xs
  still-Owned g ys xs o =
      All-map (λ x. f.owner x ≡ some g) (λ x. (grow f a h ys).owner x ≡ some g) xs
        (λ x p. ground arith) o

  -- The insertion writes the new entry, the head and one neighbour of it.
  module _ (s' : Store) (near : ℕ) (own : f.owner near ≡ some h)
      (same : (b : ℕ) → b ≢ a → b ≢ h → b ≢ near → s' b ≡ s b) where
    grow-other : (b g : ℕ) → f.owner b ≡ some g → g ≢ h → s' b ≡ s b
    grow-other b g o ne =
        same b (λ e. ground arith) (apart v h head h b g head o ne)
          (apart v h head near b g own o ne)

    grow-head : (xs : List ℕ) (g : ℕ) → (grow f a h xs).owner g ≡ some g → f.owner g ≡ some g
    grow-head xs g o = ground arith

    -- The entries of the ring that has grown.
    module _ (xs : List ℕ) (ring : IsRing s' h xs)
        (owned : All (λ x. (grow f a h xs).owner x ≡ some h) xs)
        (member : (b : ℕ) → has b (f.queue h) ≡ true → has b xs ≡ true)
        (new : has a xs ≡ true) where
      grow-IsRing : (g : ℕ) → f.owner g ≡ some g → IsRing s' g ((grow f a h xs).queue g)
      grow-IsRing g o = elim (Bool-cases (g == h)) [
        | inl is_h ↦ let e : g ≡ h = ==→eq g h is_h in rw is_h (rw e ring)
        | inr other ↦
            let ne : g ≢ h = ground arith in
            rw other (
              IsRing-frame (f.queue g) (grow-other g g o ne)
                (All-map (λ x. f.owner x ≡ some g) (λ x. s' x ≡ s x) (f.queue g)
                  (λ x p. grow-other x g p ne) (v.owned g o))
                (v.ring g o))
      ]

      grow-owned :
          (g : ℕ)
          → f.owner g ≡ some g
          → All (λ x. (grow f a h xs).owner x ≡ some g) ((grow f a h xs).queue g)
      grow-owned g o = elim (Bool-cases (g == h)) [
        | inl is_h ↦ let e : g ≡ h = ==→eq g h is_h in rw is_h (rw e owned)
        | inr other ↦ rw other (still-Owned g xs (f.queue g) (v.owned g o))
      ]

      grow-member :
          (b g : ℕ)
          → (grow f a h xs).owner b ≡ some g
          → b ≢ g
          → has b ((grow f a h xs).queue g) ≡ true
      grow-member b g o ne = ground (arith, member b, new, v.member b g)

      pub grow-IsFamily : IsFamily s' (grow f a h xs)
      grow-IsFamily = record {
        ring = λ g o. grow-IsRing g (grow-head xs g o);
        owned = λ g o. grow-owned g (grow-head xs g o);
        member = grow-member;
        heads = λ b g o. ground (arith, v.heads b g);
      }
