-- ===== src/ArrayObject.antt =====
-- snow/array.c: the functions of the class Array that programs call. SELF's contents are an array, and
-- its type is what `ASSERT_TYPE(SELF, SN_ARRAY_TYPE)` looks at. The functions that call closures are in
-- the file Closures.
pub mod Closures
pub mod Iterate
pub mod Handlers
pub mod Select
mod Tests
use snow.Base.{
  Bool, List, Result, [], assert, false, get_or, if◌then◌else◌, length, ltb, ok, pos, thrown, true,
  ℕ, ◌+◌, ◌==◌, ◌>>=◌, ◌>>◌, ◌∷◌,
}
use snow.Array.{Array, array_get, array_pop, array_set, create_array_with_size}
use snow.Value.{
  ObjectType, Word, array_type, boolean_to_value, int_to_value, is_integer, null, sn_nil,
  value_to_int,
}

abbrev pub is_array_type : ObjectType → Bool
is_array_type array_type = true
is_array_type other = false

-- `REQUIRE_ARGS(n)`
abbrev pub require_args : ℕ → List Word → Result (Unit {0})
require_args n args = if ltb (length args) n then thrown else ok tt

-- `ARGS[i]`, where an argument is required
abbrev pub arg : List Word → ℕ → Word
arg args i = get_or args i null

-- The loop of `_array_new` over the arguments from the index `i` on.
unfoldable pub set_args : Array → ℕ → List Word → Result Array
set_args a i [] = ok a
set_args a i (x ∷ xs) = do (w, b) ← array_set a (pos i) x; set_args b (i + 1) xs

unfoldable pub array_new : List Word → Result Array
array_new args = set_args (create_array_with_size (length args)) 0 args

unfoldable pub call_get : ObjectType → Array → List Word → Result Word
call_get self_type self args = do
  assert (is_array_type self_type)
  require_args 1 args
  assert (is_integer (arg args 0))
  v ← array_get self (value_to_int (arg args 0))
  ok (if v == null then sn_nil else v)

unfoldable pub call_set : ObjectType → Array → List Word → Result (Word × Array)
call_set self_type self args = do
  assert (is_array_type self_type)
  require_args 2 args
  assert (is_integer (arg args 0))
  array_set self (value_to_int (arg args 0)) (arg args 1)

unfoldable pub call_push : ObjectType → Array → List Word → Result (Word × Array)
call_push self_type self args = do
  assert (is_array_type self_type)
  require_args 1 args
  array_set self (pos self.size) (arg args 0)

unfoldable pub call_pop : ObjectType → Array → Result (Word × Array)
call_pop self_type self = do assert (is_array_type self_type); array_pop self

unfoldable pub call_length : ObjectType → Array → Result Word
call_length self_type self = do assert (is_array_type self_type); ok (int_to_value (pos self.size))

unfoldable pub call_any : ObjectType → Array → Result Word
call_any self_type self = do
  assert (is_array_type self_type)
  ok (boolean_to_value (ltb 0 self.size))
