-- ===== src/ArrayObject/Tests.antt =====
-- Tests of the functions of arrays.
use snow.Base.{List, Result, Returns, [], arith, none, ok, pos, refl, some, ◌∷◌, ◌≡◌}
use snow.ArrayObject.Iterate.{Runs, run_call, run_end}
use snow.Array.{Array}
use snow.Array.Holds.{Holds}
use snow.ArrayObject.{arg}
use snow.ArrayObject.Closures.{array_reject, array_select}
use snow.ArrayObject.Select.{array_select-picked}
use snow.Value.{Word, eval_truth, int_to_value}

-- The state is an array that the calls leave alone.
abbrev pair_array : Array
pair_array = record { data_cells = some 6 ∷ some 2 ∷ none ∷ []; size = 2; alloc_size = 3 }

pair_array-Holds : Holds pair_array (6 ∷ 2 ∷ [])
pair_array-Holds = record {
  rest = none ∷ [];
  layout = refl;
  size_eq = refl;
  room = omega arith;
  small = omega arith;
}

-- The answer is the first argument.
abbrev echo : Array → List Word → Result (Word × Array)
echo s args = ok (arg args 0, s)

abbrev same : Array → Array
same s = s

echo-Runs :
    Runs echo same
      (λ i x. x ∷ int_to_value (pos i) ∷ [])
      (6 ∷ 2 ∷ [])
      pair_array
      0
      (6 ∷ 2 ∷ [])
      (6 ∷ 2 ∷ [])
      pair_array
echo-Runs =
    run_call pair_array refl pair_array-Holds (run_call pair_array refl pair_array-Holds run_end)

array_select-picked_example :
    Returns (λ (b, u). Holds b (6 ∷ []) × (u ≡ pair_array)) (array_select echo same 3 pair_array)
    × Returns (λ (b, u). Holds b (2 ∷ []) × (u ≡ pair_array)) (array_reject echo same 3 pair_array)
unfolding eval_truth
array_select-picked_example =
    array_select-picked echo same 3 pair_array-Holds echo-Runs (omega arith)
