-- ===== src/Links/Family.antt =====
-- Many rings in one store, none of which shares an entry with another. An owner is named for each
-- address that is in use: a head owns itself, and an entry is owned by the head of its ring.
pub mod Grow
pub mod Enqueue
pub mod Push
pub mod Dequeue
pub mod Init
use so2_project.Common.{
  ℕ, ◌≡◌, ◌≢◌, Option, none, some, true, List, [], ◌∷◌, ◌++◌, arith, ◌==◌, if◌then◌else◌, update,
  All, has, remove,
}
use so2_project.Links.{Store}
use so2_project.Links.Ring.{IsRing, Chain-last-All}

-- What the rings hold: the owner of each address, and the entries of each head in order.
pub record Family : Type 0 where
  pub owner : ℕ → Option ℕ
  pub queue : ℕ → List ℕ

pub record IsFamily (s : Store) (f : Family) : Type 0 where
  pub ring : (h : ℕ) → f.owner h ≡ some h → IsRing s h (f.queue h)
  pub owned : (h : ℕ) → f.owner h ≡ some h → All (λ a. f.owner a ≡ some h) (f.queue h)
  pub member : (a h : ℕ) → f.owner a ≡ some h → a ≢ h → has a (f.queue h) ≡ true
  pub heads : (a h : ℕ) → f.owner a ≡ some h → f.owner h ≡ some h

-- An entry goes to the end of a ring.
abbrev pub enqueue : Family → (a h : ℕ) → Family
enqueue f a h = record {
  owner = update f.owner a (some h);
  queue = update f.queue h (f.queue h ++ (a ∷ []));
}

-- An entry leaves its ring.
abbrev pub dequeue : Family → (a h : ℕ) → Family
dequeue f a h = record {
  owner = update f.owner a none;
  queue = update f.queue h (remove a (f.queue h));
}

module _ {s : Store} {f : Family} (v : IsFamily s f) (h : ℕ) (head : f.owner h ≡ some h) where
  abbrev pub Owned : ℕ → Type 0
  Owned a = f.owner a ≡ some h

  pub apart : (a b g : ℕ) → Owned a → f.owner b ≡ some g → g ≢ h → b ≢ a
  apart a b g p q ne e = ne (ground arith)

  pub last-Owned : Owned (s h).prev
  last-Owned = Chain-last-All Owned s h (f.queue h) h head (v.owned h head) (v.ring h head).chain
