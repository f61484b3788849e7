-- ===== src/Links/Family/Push.antt =====
-- list_add on a family of rings.
use so2_project.Common.{ℕ, ◌≡◌, ◌≢◌, none, some, ◌∷◌, arith}
use so2_project.Links.{Store, list_add}
use so2_project.Links.Ring.{Chain-first-All}
use so2_project.Links.Insert.{list_add-IsRing}
use so2_project.Links.Family.{Family, IsFamily}
use so2_project.Links.Family.Grow.{grow, not_owned-Fresh, ne_head, still-Owned, grow-IsFamily}

list_add-other :
    (s : Store) (new head a : ℕ)
    → a ≢ new
    → a ≢ head
    → a ≢ (s head).next
    → list_add s new head a ≡ s a
unfolding list_add
list_add-other s new head a p q r = ground arith

-- An entry goes to the front of a ring.
abbrev pub push_front : Family → (a h : ℕ) → Family
push_front f a h = grow f a h (a ∷ f.queue h)

module _ {s : Store} {f : Family} (v : IsFamily s f) (h : ℕ) (head : f.owner h ≡ some h) (a : ℕ)
    (unused : f.owner a ≡ none) where
  -- list_add of an address that no ring of a store uses puts it at the front of the ring of the given
  -- head and leaves all other rings as they were.
  pub list_add-IsFamily : IsFamily (list_add s a h) (push_front f a h)
  list_add-IsFamily =
      grow-IsFamily v h head a unused (list_add s a h) (s h).next
        (Chain-first-All (λ x. f.owner x ≡ some h) s h (f.queue h) h head (v.owned h head)
          (v.ring h head).chain)
        (λ b p q r. list_add-other s a h b p q r) (a ∷ f.queue h)
        (list_add-IsRing a (v.ring h head) (ne_head v h head a unused)
          (not_owned-Fresh v h head a unused (f.queue h) (v.owned h head)))
        (ground arith, still-Owned v h head a unused h (a ∷ f.queue h) (f.queue h) (v.owned h head))
        (λ b m. ground (arith, m)) (ground arith)
