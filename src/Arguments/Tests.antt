-- ===== src/Arguments/Tests.antt =====
-- Tests of the arguments of calls.
use snow.Base.{Returns, [], arith, ok, pos, refl, some, ◌∷◌, ◌≡◌}
use snow.Arguments.{
  Arguments, arguments_add_name, arguments_get_by_name, arguments_get_index_for_name,
  arguments_push_named,
}
use snow.Arguments.Lookup.{arguments_get_by_name-push_named}
use snow.Arguments.Name.{Named, arguments_add_name-Named}
use snow.Arguments.Push.{HoldsArgs}
use snow.Array.Search.{slot}
use snow.Value.{Word, sn_nil, symbol_to_value}

abbrev first_name : Word
first_name = symbol_to_value 1

abbrev passed : Arguments
passed = record {
  names = record {
    data_cells = some (symbol_to_value 1) ∷ some sn_nil ∷ [];
    size = 2;
    alloc_size = 2;
  };
  args_data = record { data_cells = some 21 ∷ some 31 ∷ []; size = 2; alloc_size = 2 };
}

passed-HoldsArgs : HoldsArgs passed (first_name ∷ sn_nil ∷ []) (21 ∷ 31 ∷ [])
passed-HoldsArgs = record {
  names_held = record {
    rest = [];
    layout = refl;
    size_eq = refl;
    room = omega arith;
    small = omega arith;
  };
  data_held = record {
    rest = [];
    layout = refl;
    size_eq = refl;
    room = omega arith;
    small = omega arith;
  };
}

arguments_add_name-Named_example :
    Returns
      (Named (first_name ∷ sn_nil ∷ []) (21 ∷ 31 ∷ []) (symbol_to_value 2))
      (arguments_add_name passed 2)
arguments_add_name-Named_example = arguments_add_name-Named 2 passed-HoldsArgs (omega arith)

arguments_get_by_name-push_named_example :
    Returns
      (λ (w, args).
        (w ≡ 51)
        × (arguments_get_by_name (some args) 2 ≡ ok 51)
        × (arguments_get_index_for_name args 2
            ≡ ok (pos (slot (first_name ∷ sn_nil ∷ []) (symbol_to_value 2)))))
      (arguments_push_named passed 2 51)
arguments_get_by_name-push_named_example =
    arguments_get_by_name-push_named 2 51 passed-HoldsArgs (omega arith)
