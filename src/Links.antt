-- ===== src/Links.antt =====
-- list.c and include/list.h: the kernel's circular doubly linked lists. A list head or an entry is
-- an address, and a store gives the two pointers that stand there.
pub mod Ring
pub mod Insert
pub mod Delete
pub mod Walk
pub mod At
pub mod Family
mod Tests
use so2_project.Common.{
  ℕ, zero, suc, Bool, Option, none, some, List, [], ◌∷◌, ◌==◌, if◌then◌else◌, update,
}

-- `struct list_head`
pub record ListHead : Type 0 where
  pub next : ℕ
  pub prev : ℕ

abbrev pub Store : Type 0
Store = ℕ → ListHead

abbrev pub set_next : Store → ℕ → ℕ → Store
set_next s p q = update s p (record (s p) { next = q })

abbrev pub set_prev : Store → ℕ → ℕ → Store
set_prev s p q = update s p (record (s p) { prev = q })

-- `INIT_LIST_HEAD`
unfoldable pub init_list_head : Store → ℕ → Store
init_list_head s l = let s₁ = set_next s l l in set_prev s₁ l l

-- `__list_add`, its four writes in order
unfoldable pub list_add_between : Store → (new prev next : ℕ) → Store
list_add_between s new prev next =
    let s₁ = set_prev s next new in
    let s₂ = set_next s₁ new next in let s₃ = set_prev s₂ new prev in set_next s₃ prev new

unfoldable pub list_add : Store → (new head : ℕ) → Store
unfolding list_add_between
list_add s new head = list_add_between s new head (s head).next

unfoldable pub list_add_tail : Store → (new head : ℕ) → Store
unfolding list_add_between
list_add_tail s new head = list_add_between s new (s head).prev head

-- `__list_del`
unfoldable pub list_del_between : Store → (prev next : ℕ) → Store
list_del_between s prev next = let s₁ = set_prev s next prev in set_next s₁ prev next

unfoldable pub list_del : Store → ℕ → Store
unfolding list_del_between
list_del s entry =
    let s₁ = list_del_between s (s entry).prev (s entry).next in
    let s₂ = set_next s₁ entry 0 in set_prev s₂ entry 0

unfoldable pub list_is_last : Store → (list head : ℕ) → Bool
list_is_last s list head = (s list).next == head

unfoldable pub list_empty : Store → ℕ → Bool
list_empty s head = (s head).next == head

-- `list_first`
abbrev pub list_first : Store → ℕ → ℕ
list_first s head = (s head).next

-- The entries that `list_for_each` visits in a store that its body leaves alone; `none` means that
-- the fuel ran out.
visit : ℕ → Store → (head pos : ℕ) → Option (List ℕ)
visit zero s head pos = none
visit (suc fuel) s head pos =
    let rest = visit fuel s head (s pos).next in
    if pos == head then some [] else elim rest [ none ↦ none | some es ↦ some (pos ∷ es) ]

unfoldable pub list_for_each : ℕ → Store → ℕ → Option (List ℕ)
unfolding visit
list_for_each fuel s head = visit fuel s head (s head).next
