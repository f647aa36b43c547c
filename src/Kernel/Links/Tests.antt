-- ===== src/Kernel/Links/Tests.antt =====
-- The witnesses of Kernel/Links, on rings through address 10.
use m68k_system.Common.{◌≡◌, [], ◌∷◌, arith}
use m68k_system.Kernel.Links.{
  Links, list_init, list_append, list_insert, list_delete, list_invalid_item,
}
use m68k_system.Kernel.Links.Chain.{IsAbsent, IsRing}
use m68k_system.Kernel.Links.Insertion.{list_append-IsRing}
use m68k_system.Kernel.Links.Deletion.{list_delete-IsRing, list_init-IsRing}

abbrev none_linked : Links
none_linked = record { next = λ x. 0; prev = λ x. 0 }

abbrev one_item : Links
one_item = list_append (list_init none_linked 10) 20 10

list_append-IsRing_example :
    IsRing one_item 10 (20 ∷ [])
    × IsRing (list_insert (list_init none_linked 10) 20 10) 10 (20 ∷ [])
unfolding IsAbsent
list_append-IsRing_example =
    list_append-IsRing (list_init none_linked 10) 20 10 [] [] (list_init-IsRing none_linked 10)
      (λ e. absurd (omega (arith, e))) tt

one_item-IsRing : IsRing one_item 10 (20 ∷ [])
unfolding IsAbsent
one_item-IsRing =
    (list_append-IsRing (list_init none_linked 10) 20 10 [] [] (list_init-IsRing none_linked 10)
      (λ e. absurd (omega (arith, e))) tt).0

list_delete-IsRing_example :
    IsRing (list_delete one_item 20) 10 []
    × ((list_delete one_item 20).next 20 ≡ list_invalid_item)
    × ((list_delete one_item 20).prev 20 ≡ list_invalid_item)
list_delete-IsRing_example = list_delete-IsRing one_item 20 10 [] [] one_item-IsRing
