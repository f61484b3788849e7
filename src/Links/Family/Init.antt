-- ===== src/Links/Family/Init.antt =====
-- INIT_LIST_HEAD on a family of rings, and the loops that fill a ring with the members of an array.
use so2_project.Common.{
  ℕ, zero, suc, ◌+◌, ◌≤◌, ◌≡◌, refl, ◌≢◌, none, some, List, [], arith, ◌==◌, update, Bool-cases,
  inl, inr, All, All-map, ==→eq,
}
use so2_project.Links.{Store, init_list_head, list_add_tail}
use so2_project.Links.Ring.{IsRing, IsRing-frame, init_list_head-IsRing}
use so2_project.Links.Family.{Family, IsFamily, enqueue}
use so2_project.Links.Family.Enqueue.{list_add_tail-IsFamily}

-- No ring.
abbrev pub no_rings : Family
no_rings = record { owner = λ a. none; queue = λ h. [] }

-- One more ring, which is empty.
abbrev pub new_head : Family → ℕ → Family
new_head f h = record { owner = update f.owner h (some h); queue = update f.queue h [] }

-- The first `n` members of an array go to the end of a ring, one by one.
unfoldable pub enqueue_range : ℕ → (ℕ → ℕ) → ℕ → Family → Family
enqueue_range zero entry h f = f
enqueue_range (suc n) entry h f = enqueue (enqueue_range n entry h f) (entry n) h

pub enqueue_range-zero : (entry : ℕ → ℕ) (h : ℕ) (f : Family) → enqueue_range 0 entry h f ≡ f
unfolding enqueue_range
enqueue_range-zero entry h f = refl

-- The ring of a head that has no entry.
abbrev pub IsLone : Family → ℕ → Type 0
IsLone f h = (a : ℕ) → f.owner a ≡ some h → a ≡ h

pub no_rings-IsFamily : (s : Store) → IsFamily s no_rings
no_rings-IsFamily s = record {
  ring = λ h o. absurd (ground arith);
  owned = λ h o. absurd (ground arith);
  member = λ a h o ne. absurd (ground arith);
  heads = λ a h o. absurd (ground arith);
}

init_list_head-other : (s : Store) (h a : ℕ) → a ≢ h → init_list_head s h a ≡ s a
unfolding init_list_head
init_list_head-other s h a ne = ground arith

module _ {s : Store} {f : Family} (v : IsFamily s f) (h : ℕ) (unused : f.owner h ≡ none) where
  owned_ne : (g : ℕ) (xs : List ℕ) → All (λ a. f.owner a ≡ some g) xs → All (λ a. a ≢ h) xs
  owned_ne g xs o = All-map (λ a. f.owner a ≡ some g) (λ a. a ≢ h) xs (λ a p e. ground arith) o

  init-IsRing :
      (g : ℕ)
      → (new_head f h).owner g ≡ some g
      → IsRing (init_list_head s h) g ((new_head f h).queue g)
  init-IsRing g o = elim (Bool-cases (g == h)) [
    | inl same ↦ let e : g ≡ h = ==→eq g h same in rw same (rw e (init_list_head-IsRing s h))
    | inr other ↦
        let ne : g ≢ h = ground arith in
        let o' : f.owner g ≡ some g = ground arith in
        rw other (
          IsRing-frame (f.queue g) (init_list_head-other s h g ne)
            (All-map (λ a. a ≢ h) (λ a. init_list_head s h a ≡ s a) (f.queue g)
              (λ a p. init_list_head-other s h a p) (owned_ne g (f.queue g) (v.owned g o')))
            (v.ring g o'))
  ]

  init-owned :
      (g : ℕ)
      → (new_head f h).owner g ≡ some g
      → All (λ a. (new_head f h).owner a ≡ some g) ((new_head f h).queue g)
  init-owned g o = elim (Bool-cases (g == h)) [
    | inl same ↦ rw same tt
    | inr other ↦
        let o' : f.owner g ≡ some g = ground arith in
        rw other (
          All-map (λ a. f.owner a ≡ some g) (λ a. (new_head f h).owner a ≡ some g) (f.queue g)
            (λ a p. ground arith) (v.owned g o'))
  ]

  -- A head that is in no ring yet.
  pub init_list_head-IsFamily : IsFamily (init_list_head s h) (new_head f h)
  init_list_head-IsFamily = record {
    ring = init-IsRing;
    owned = init-owned;
    member = λ a g o ne. ground (arith, v.member a g, v.heads a h);
    heads = λ a g o. ground (arith, v.heads a g);
  }

module _ (entry : ℕ → ℕ) (one_to_one : (i j : ℕ) → entry i ≡ entry j → i ≡ j) (h : ℕ)
    (apart : (i : ℕ) → entry i ≢ h) (f : Family) where
  pub enqueue_range-later :
      (n i : ℕ) → n ≤ i → (enqueue_range n entry h f).owner (entry i) ≡ f.owner (entry i)
  unfolding enqueue_range
  enqueue_range-later zero i le = refl
  enqueue_range-later (suc n) i le = ground (arith, enqueue_range-later n i, one_to_one i n)

  pub enqueue_range-head : (n : ℕ) → (enqueue_range n entry h f).owner h ≡ f.owner h
  unfolding enqueue_range
  enqueue_range-head zero = refl
  enqueue_range-head (suc n) = ground (arith, enqueue_range-head n, apart n)

  pub enqueue_range-other :
      (n a : ℕ) → ((i : ℕ) → a ≢ entry i) → (enqueue_range n entry h f).owner a ≡ f.owner a
  unfolding enqueue_range
  enqueue_range-other zero a ne = refl
  enqueue_range-other (suc n) a ne = ground (arith, enqueue_range-other n a ne, ne n)

  pub enqueue_range-owner :
      (n a g : ℕ) → g ≢ h → (enqueue_range n entry h f).owner a ≡ some g → f.owner a ≡ some g
  unfolding enqueue_range
  enqueue_range-owner zero a g ne o = o
  enqueue_range-owner (suc n) a g ne o = enqueue_range-owner n a g ne (ground (arith, ne, o))

  -- What the array's members and the older entries have in common.
  pub enqueue_range-entry :
      (P : ℕ → Type 0) (n a : ℕ)
      → ((i : ℕ) → P (entry i))
      → (f.owner a ≡ some h → P a)
      → (enqueue_range n entry h f).owner a ≡ some h
      → P a
  unfolding enqueue_range
  enqueue_range-entry P zero a each old o = old o
  enqueue_range-entry P (suc n) a each old o = elim (Bool-cases (a == entry n)) [
    | inl same ↦ let e : a ≡ entry n = ==→eq a (entry n) same in rw e (each n)
    | inr other ↦ enqueue_range-entry P n a each old (rw other at o)
  ]

  -- One round of the loop.
  pub enqueue_range-IsFamily :
      (n : ℕ) (s : Store)
      → f.owner h ≡ some h
      → f.owner (entry n) ≡ none
      → IsFamily s (enqueue_range n entry h f)
      → IsFamily (list_add_tail s (entry n) h) (enqueue_range (n + 1) entry h f)
  unfolding enqueue_range
  enqueue_range-IsFamily n s head unused v =
      let next : n + 1 ≡ suc n = omega arith in
      rw next (
        list_add_tail-IsFamily v h (rw (enqueue_range-head n) head) (entry n)
          (rw (enqueue_range-later n n (omega arith)) unused))
