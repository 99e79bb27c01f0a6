-- ===== src/Array/Tests.antt =====
-- Tests of the arrays.
use snow.Base.{List, Returns, [], arith, negsuc, none, ok, pos, refl, some, ◌∷◌, ◌≡◌}
use snow.Array.{Array, array_erase, array_find_or_add, array_get, array_set}
use snow.Array.Access.{array_get-element}
use snow.Array.Growth.{Stored, array_set-put}
use snow.Array.Holds.{Holds}
use snow.Array.Removal.{Removed, array_erase-remove}
use snow.Array.Search.{FoundOrAdded, array_find_or_add-slot}
use snow.Value.{Word, sn_nil}

abbrev items : List Word
items = 10 ∷ 20 ∷ 30 ∷ []

abbrev three_items : Array
three_items = record {
  data_cells = some 10 ∷ some 20 ∷ some 30 ∷ none ∷ [];
  size = 3;
  alloc_size = 4;
}

three_items-Holds : Holds three_items items
three_items-Holds = record {
  rest = none ∷ [];
  layout = refl;
  size_eq = refl;
  room = omega arith;
  small = omega arith;
}

array_set-put_example :
    Returns (Stored 70 (10 ∷ 20 ∷ 30 ∷ sn_nil ∷ 70 ∷ [])) (array_set three_items (pos 4) 70)
array_set-put_example = array_set-put 4 70 three_items-Holds (omega arith)

array_get-element_example : array_get three_items (negsuc 0) ≡ ok 30
array_get-element_example = array_get-element (negsuc 0) three_items-Holds

array_erase-remove_example : Returns (Removed 20 (10 ∷ 30 ∷ [])) (array_erase three_items (pos 1))
array_erase-remove_example = array_erase-remove 1 three_items-Holds (omega arith)

array_find_or_add-slot_example : Returns (FoundOrAdded items 70) (array_find_or_add three_items 70)
array_find_or_add-slot_example = array_find_or_add-slot 70 three_items-Holds (omega arith)
