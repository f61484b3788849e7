-- ===== src/Links/Tests.antt =====
-- A ring of three entries, built and taken apart.
use so2_project.Common.{◌≡◌, refl, arith, true, some, [], ◌∷◌}
use so2_project.Links.{
  Store, init_list_head, list_add, list_add_tail, list_del, list_is_last, list_for_each,
}
use so2_project.Links.Ring.{IsRing, init_list_head-IsRing}
use so2_project.Links.Insert.{list_add-IsRing, list_add_tail-IsRing}
use so2_project.Links.Delete.{list_del-IsRing}
use so2_project.Links.Family.{Family, IsFamily, enqueue, dequeue}
use so2_project.Links.Family.Init.{no_rings, new_head, no_rings-IsFamily, init_list_head-IsFamily}
use so2_project.Links.Family.Enqueue.{list_add_tail-IsFamily}
use so2_project.Links.Family.Dequeue.{list_del-IsFamily}
use so2_project.Links.Family.Push.{push_front, list_add-IsFamily}

abbrev blank : Store
blank = λ a. record { next = 0; prev = 0 }

abbrev one_entry : Store
one_entry = list_add (init_list_head blank 8) 100 8

one_entry-IsRing : IsRing one_entry 8 (100 ∷ [])
one_entry-IsRing = list_add-IsRing 100 (init_list_head-IsRing blank 8) (omega arith) tt

abbrev two_entries : Store
two_entries = list_add_tail one_entry 200 8

two_entries-IsRing : IsRing two_entries 8 (100 ∷ 200 ∷ [])
two_entries-IsRing = list_add_tail-IsRing 200 one_entry-IsRing (omega arith) ((omega arith), tt)

list_add_tail-IsRing_example : IsRing (list_add_tail two_entries 300 8) 8 (100 ∷ 200 ∷ 300 ∷ [])
list_add_tail-IsRing_example =
    list_add_tail-IsRing 300 two_entries-IsRing (omega arith) (omega arith, (omega arith, tt))

list_del-IsRing_example : IsRing (list_del two_entries 100) 8 (200 ∷ [])
list_del-IsRing_example = list_del-IsRing [] 100 (200 ∷ []) two_entries-IsRing

del_run : list_for_each 2 (list_del two_entries 200) 8 ≡ some (100 ∷ [])
unfolding list_for_each list_del list_add list_add_tail init_list_head
del_run = refl

last_run : list_is_last two_entries 200 8 ≡ true
unfolding list_is_last list_add list_add_tail init_list_head
last_run = refl

-- Two heads, with an entry that goes from one ring to the other.
abbrev two_heads : Store
two_heads = init_list_head (init_list_head blank 8) 20

abbrev heads_family : Family
heads_family = new_head (new_head no_rings 8) 20

two_heads-IsFamily : IsFamily two_heads heads_family
two_heads-IsFamily =
    init_list_head-IsFamily (init_list_head-IsFamily (no_rings-IsFamily blank) 8 refl) 20 refl

list_add_tail-IsFamily_example :
    IsFamily (list_add_tail two_heads 100 8) (enqueue heads_family 100 8)
list_add_tail-IsFamily_example = list_add_tail-IsFamily two_heads-IsFamily 8 refl 100 refl

list_del-IsFamily_example :
    IsFamily
      (list_del (list_add_tail two_heads 100 8) 100)
      (dequeue (enqueue heads_family 100 8) 100 8)
list_del-IsFamily_example =
    list_del-IsFamily (list_add_tail-IsFamily two_heads-IsFamily 8 refl 100 refl) 8 refl 100 refl
      (omega arith)

list_add-IsFamily_example :
    IsFamily
      (list_add (list_add_tail two_heads 100 8) 200 8)
      (push_front (enqueue heads_family 100 8) 200 8)
list_add-IsFamily_example =
    list_add-IsFamily (list_add_tail-IsFamily two_heads-IsFamily 8 refl 100 refl) 8 refl 200 refl
