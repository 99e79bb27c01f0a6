-- ===== src/Map.antt =====
-- snow/map.c: a map is an array of key and value pairs, searched from the front with the map's own
-- comparison. A write of a new key copies the pairs to a blob that is one pair longer.
pub mod Laws
pub mod Keys
mod Tests
use snow.Base.{
  Bool, List, Result, [], assert, false, if◌then◌else◌, ltb, negsuc, not, ok, pos, ℕ, ℤ, ◌%◌, ◌+◌,
  ◌-◌, ◌==◌, ◌>>=◌, ◌>>◌, ◌^◌, ◌∷◌,
}
use snow.Value.{Word, null, word_mod}
use snow.Array.{Array, array_push, create_array}

-- `SnMapTuple`
pub record Tuple : Type 0 where
  pub key : Word
  pub value : Word

-- `SnMapCompare`: zero means "the same key".
abbrev pub Compare : Type 0
Compare = Word → Word → ℤ

-- `SnMap`, with `size` the length of the list.
pub record SnMap : Type 0 where
  pub tuples : List Tuple
  pub compare_with : Compare

abbrev pub tuple : Word → Word → Tuple
tuple k v = record { key = k; value = v }

-- `(int)((intx)b - (intx)a)`: the difference of two words, cut to 32 bits.
unfoldable pub map_compare_default : Compare
map_compare_default a b =
    let d : ℕ = (b + word_mod - a % word_mod) % word_mod % 2 ^ 32 in
    if ltb d (2 ^ 31) then pos d else negsuc (2 ^ 32 - d - 1)

abbrev pub create_map_with_compare : Compare → SnMap
create_map_with_compare cmp = record { tuples = []; compare_with = cmp }

abbrev pub create_map : SnMap
create_map = create_map_with_compare map_compare_default

abbrev pub is_same : ℤ → Bool
is_same (pos n) = n == 0
is_same (negsuc n) = false

unfoldable pub get_from : Compare → List Tuple → Word → Word
get_from cmp [] k = null
get_from cmp (t ∷ ts) k = if is_same (cmp t.key k) then t.value else get_from cmp ts k

unfoldable pub map_get : SnMap → Word → Word
map_get m k = get_from m.compare_with m.tuples k

unfoldable pub map_contains : SnMap → Word → Bool
map_contains m k = not (map_get m k == null)

-- The value of the first tuple with the key is replaced; a new tuple goes to the end.
unfoldable pub set_in : Compare → List Tuple → Word → Word → List Tuple
set_in cmp [] k v = tuple k v ∷ []
set_in cmp (t ∷ ts) k v =
    if is_same (cmp t.key k) then tuple t.key v ∷ ts else t ∷ set_in cmp ts k v

unfoldable pub map_set : SnMap → Word → Word → Result SnMap
map_set m k v = do
  assert (not (k == null))
  ok (record m { tuples = set_in m.compare_with m.tuples k v })

-- `map_keys` and `map_values` push each in order to a fresh array.
unfoldable pub push_keys : Array → List Tuple → Result Array
push_keys a [] = ok a
push_keys a (t ∷ ts) = do (w, b) ← array_push a t.key; push_keys b ts

unfoldable pub map_keys : SnMap → Result Array
map_keys m = push_keys create_array m.tuples

unfoldable pub push_values : Array → List Tuple → Result Array
push_values a [] = ok a
push_values a (t ∷ ts) = do (w, b) ← array_push a t.value; push_values b ts

unfoldable pub map_values : SnMap → Result Array
map_values m = push_values create_array m.tuples
