-- ===== src/Links/Family/Enqueue.antt =====
-- list_add_tail on a family of rings.
use so2_project.Common.{ℕ, ◌≡◌, ◌≢◌, none, some, [], ◌∷◌, ◌++◌, arith, append-All, has-append}
use so2_project.Links.{Store, list_add_tail}
use so2_project.Links.Insert.{list_add_tail-IsRing}
use so2_project.Links.Family.{Family, IsFamily, enqueue, last-Owned}
use so2_project.Links.Family.Grow.{not_owned-Fresh, ne_head, still-Owned, grow-IsFamily}

-- An insertion changes three nodes at most.
list_add_tail-other :
    (s : Store) (new head a : ℕ)
    → a ≢ new
    → a ≢ head
    → a ≢ (s head).prev
    → list_add_tail s new head a ≡ s a
unfolding list_add_tail
list_add_tail-other s new head a p q r = ground arith

module _ {s : Store} {f : Family} (v : IsFamily s f) (h : ℕ) (head : f.owner h ≡ some h) (a : ℕ)
    (unused : f.owner a ≡ none) where
  -- list_add_tail of an address that no ring of a store uses puts it at the end of the ring of the given
  -- head and leaves all other rings as they were.
  pub list_add_tail-IsFamily : IsFamily (list_add_tail s a h) (enqueue f a h)
  list_add_tail-IsFamily =
      grow-IsFamily v h head a unused (list_add_tail s a h) (s h).prev (last-Owned v h head)
        (λ b p q r. list_add_tail-other s a h b p q r) (f.queue h ++ (a ∷ []))
        (list_add_tail-IsRing a (v.ring h head) (ne_head v h head a unused)
          (not_owned-Fresh v h head a unused (f.queue h) (v.owned h head)))
        (append-All (λ x. (enqueue f a h).owner x ≡ some h) (f.queue h) (a ∷ [])
          (still-Owned v h head a unused h (f.queue h ++ (a ∷ [])) (f.queue h) (v.owned h head))
          (ground arith, tt))
        (λ b m. ground (arith, has-append b (f.queue h) (a ∷ []), m))
        (ground (arith, has-append a (f.queue h) (a ∷ [])))
