-- ===== src/Arguments.antt =====
-- snow/arguments.c: the arguments of a call are two arrays side by side, names and data. An argument
-- without a name has nil for its name.
pub mod Push
pub mod Name
pub mod Lookup
pub mod Functions
mod Tests
use snow.Base.{
  List, Option, Result, [], fault, if◌then◌else◌, length, ltb, none, not, ok, pos, some, suc, sym,
  thrown, zero, ℕ, ℤ, ◌%◌, ◌++◌, ◌+◌, ◌==◌, ◌>>=◌, ◌∷◌,
}
use snow.Array.{
  Array, array_find, array_find_or_add, array_get, array_init_with_size, array_push, array_set,
  is_negative,
}
use snow.Map.{SnMap, map_set}
use snow.Value.{Word, eval_truth, null, sn_nil, symbol_to_value, value_to_symbol}

-- `SnArguments`
pub record Arguments : Type 0 where
  pub names : Array
  pub args_data : Array

abbrev pub create_arguments_with_size : ℕ → Arguments
create_arguments_with_size n = record {
  names = array_init_with_size n;
  args_data = array_init_with_size n;
}

unfoldable pub arguments_push : Arguments → Word → Result (Word × Arguments)
arguments_push args v = do
  (w, ns) ← array_push args.names sn_nil
  (u, ds) ← array_push args.args_data v
  ok (u, record { names = ns; args_data = ds })

unfoldable pub arguments_push_named : Arguments → ℕ → Word → Result (Word × Arguments)
arguments_push_named args sym v = do
  (idx, ns) ← array_find_or_add args.names (symbol_to_value sym)
  (u, ds) ← array_set args.args_data idx v
  ok (u, record { names = ns; args_data = ds })

-- The loop of `snow_arguments_add_name` over the indices `i … i + k`: the first slot whose name is not
-- true gets the name. `none` means that every slot has a name.
unfoldable pub fill_unnamed : Array → Word → (i k : ℕ) → Result (Option (ℤ × Array))
fill_unnamed ns vsym i zero = ok none
fill_unnamed ns vsym i (suc k) =
    let rest = fill_unnamed ns vsym (i + 1) k in
    (do
      x ← array_get ns (pos i)
      if not (eval_truth x)
          then (do (w, ns') ← array_set ns (pos i) vsym; ok (some (pos i, ns')))
          else rest)

-- "no unnamed slots, add it at the end"
unfoldable pub add_at_end : Array → Word → Option (ℤ × Array) → Result (ℤ × Array)
add_at_end ns vsym (some out) = ok out
add_at_end ns vsym none = do (w, ns') ← array_push ns vsym; ok (pos ns.size, ns')

unfoldable pub arguments_add_name : Arguments → ℕ → Result (ℤ × Arguments)
arguments_add_name args sym = do
  idx ← array_find args.names (symbol_to_value sym)
  if is_negative idx
      then (do
        filled ← fill_unnamed args.names (symbol_to_value sym) 0 args.names.size
        (i, ns) ← add_at_end args.names (symbol_to_value sym) filled
        ok (i, record args { names = ns }))
      else ok (idx, args)

unfoldable pub arguments_get_index_for_name : Arguments → ℕ → Result ℤ
arguments_get_index_for_name args sym = array_find args.names (symbol_to_value sym)

unfoldable pub arguments_get_by_index : Arguments → ℤ → Result Word
arguments_get_by_index args idx = array_get args.args_data idx

-- `none` is a NULL pointer for the arguments.
unfoldable pub arguments_get_by_name : Option Arguments → ℕ → Result Word
arguments_get_by_name none sym = ok sn_nil
arguments_get_by_name (some args) sym = do
  idx ← array_find args.names (symbol_to_value sym)
  if is_negative idx then ok sn_nil else array_get args.args_data idx

-- The loop of `snow_arguments_get_by_name_at` over the indices `i … i + k`.
unfoldable pub named_at_loop :
    Arguments → (sym idx : ℕ) → (i k unnamed_i : ℕ) → (unnamed : Word) → Result Word
named_at_loop args sym idx i zero unnamed_i unnamed = ok unnamed
named_at_loop args sym idx i (suc k) unnamed_i unnamed =
    let found : Word → Word = λ d. if unnamed_i == idx then d else unnamed in
    let next = λ (d : Word). named_at_loop args sym idx (i + 1) k (unnamed_i + 1) (found d) in
    let skip = named_at_loop args sym idx (i + 1) k unnamed_i unnamed in
    (do
      argname ← array_get args.names (pos i)
      d ← array_get args.args_data (pos i)
      if argname == sn_nil
          then next d
          else if value_to_symbol argname == sym
          then ok (if d == null then unnamed else d)
          else skip)

unfoldable pub arguments_get_by_name_at : Arguments → (sym idx : ℕ) → Result Word
arguments_get_by_name_at args sym idx = named_at_loop args sym idx 0 args.args_data.size 0 null

-- The first loop of `snow_arguments_put_in_map`: named arguments go to the map, the others to a list
-- (`unnamed_args`, which has room for `array_size(DATA)` of them).
unfoldable pub put_named : Arguments → (i k : ℕ) → List Word → SnMap → Result (List Word × SnMap)
put_named args i zero unnamed m = ok (unnamed, m)
put_named args i (suc k) unnamed m =
    let later = λ (u : List Word) (m' : SnMap). put_named args (i + 1) k u m' in
    (do
      argname ← array_get args.names (pos i)
      d ← array_get args.args_data (pos i)
      if argname == sn_nil
          then (if ltb (length unnamed) args.args_data.size
              then later (unnamed ++ d ∷ []) m
              else fault)
          else (do m' ← map_set m argname d; later unnamed m'))

-- The second loop: keys and values in turn. An odd number of them is an exception.
unfoldable pub put_pairs : List Word → SnMap → Result SnMap
put_pairs [] m = ok m
put_pairs (k ∷ []) m = ok m
put_pairs (k ∷ v ∷ rest) m = do m' ← map_set m k v; put_pairs rest m'

unfoldable pub arguments_put_in_map : Arguments → SnMap → Result SnMap
arguments_put_in_map args m = do
  (unnamed, m') ← put_named args 0 args.names.size [] m
  if length unnamed % 2 == 0 then put_pairs unnamed m' else thrown
