-- ===== src/Array.antt =====
-- snow/array-intern.h, the growable array of VALUEs under every SnArray, SnArguments and SnObject,
-- and the SnArray functions of snow/array.c that only wrap it.
-- `uint32_t` fields wrap at 2^32; an index is an `intx`, negative from the end.
-- A function that writes through the pointer returns the new array.
pub mod Holds
pub mod Access
pub mod Growth
pub mod Removal
pub mod Search
mod Tests
use snow.Base.{
  Bool, List, Result, [], false, if◌then◌else◌, length, ltb, ltb_ℤ, negsuc, ok, pos, suc, trap,
  true, zero, ℕ, ℤ, ◌%◌, ◌+ℤ◌, ◌+◌, ◌-◌, ◌==◌, ◌>>=◌, ◌^◌, ◌∷◌,
}
use snow.Value.{Word, null, sn_nil, to_word}
use snow.Memory.{Cell, blob, copy_cells, fill_cells, read_cell, write_cell}

abbrev pub u32_mod : ℕ
u32_mod = 2 ^ 32

-- `struct array_t`; the NULL pointer is memory of no cells.
pub record Array : Type 0 where
  pub data_cells : List Cell
  pub size : ℕ
  pub alloc_size : ℕ

abbrev pub array_init : Array
array_init = record { data_cells = []; size = 0; alloc_size = 0 }

abbrev pub array_init_with_size : ℕ → Array
array_init_with_size n = record { data_cells = blob n; size = 0; alloc_size = n % u32_mod }

-- The first half of `array_grow`: a larger blob, when the old one is too small.
unfoldable pub reserve : Array → ℕ → Result Array
reserve a n =
    if ltb a.alloc_size n
    then (do
      d ← copy_cells (blob n) a.data_cells a.size
      ok (record a { data_cells = d; alloc_size = n % u32_mod }))
    else ok a

-- The second half: the new elements are nil.
unfoldable pub extend : Array → ℕ → Result Array
extend a n =
    if ltb a.size n
    then (do
      d ← fill_cells sn_nil a.data_cells a.size (n - a.size)
      ok (record a { data_cells = d; size = n % u32_mod }))
    else ok a

-- For a negative size neither test of the C code passes.
unfoldable pub array_grow : Array → ℤ → Result Array
array_grow a (negsuc n) = ok a
array_grow a (pos n) = do b ← reserve a n; extend b n

-- `if (idx < 0) idx += size;`
unfoldable pub from_end : ℕ → ℤ → ℤ
from_end size idx = if ltb_ℤ idx (pos 0) then idx +ℤ pos size else idx

unfoldable pub array_get : Array → ℤ → Result Word
array_get a idx =
    if ltb_ℤ idx (pos a.size)
    then elim (from_end a.size idx) [ negsuc n ↦ ok null | pos i ↦ read_cell a.data_cells i ]
    else ok null

-- `if (idx >= size) array_grow(array, idx + 1);`
unfoldable pub grow_past : Array → ℤ → Result Array
grow_past a idx = if ltb_ℤ idx (pos a.size) then ok a else array_grow a (idx +ℤ pos 1)

-- The rest of `array_set`, once there is room.
unfoldable pub store_in : Word → Array → ℤ → Result (Word × Array)
store_in v b (negsuc n) = trap
store_in v b (pos i) = do d ← write_cell b.data_cells i v; ok (v, record b { data_cells = d })

unfoldable pub array_set : Array → ℤ → Word → Result (Word × Array)
array_set a idx v = do b ← grow_past a idx; store_in v b (from_end b.size idx)

-- `size - 1` on a `uint32_t`
abbrev pub pred_u32 : ℕ → ℕ
pred_u32 n = (n + u32_mod - 1) % u32_mod

-- `for (; i < i + k; ++i) data[i] = data[i + 1];`
unfoldable pub shift_down : List Cell → (i k : ℕ) → Result (List Cell)
shift_down d i zero = ok d
shift_down d i (suc k) = do v ← read_cell d (i + 1); d' ← write_cell d i v; shift_down d' (i + 1) k

-- The rest of `array_erase`, once there is an element: the loop runs `size - 1 - idx` times, and
-- then the last element is cleared.
unfoldable pub remove_in : Array → ℤ → Result (Word × Array)
remove_in b (negsuc n) = trap
remove_in b (pos i) = do
  v ← read_cell b.data_cells i
  d ← shift_down b.data_cells i (pred_u32 b.size - i)
  d' ← write_cell d (pred_u32 b.size) null
  ok (v, record b { data_cells = d'; size = pred_u32 b.size })

unfoldable pub array_erase : Array → ℤ → Result (Word × Array)
array_erase a idx = do b ← grow_past a idx; remove_in b (from_end b.size idx)

unfoldable pub array_push : Array → Word → Result (Word × Array)
array_push a v = array_set a (pos a.size) v

unfoldable pub array_pop : Array → Result (Word × Array)
array_pop a = if a.size == 0 then ok (null, a) else (do
  v ← read_cell a.data_cells (a.size - 1)
  d ← write_cell a.data_cells (a.size - 1) sn_nil
  ok (v, record a { data_cells = d; size = a.size - 1 }))

-- The loop of the two searches over the indices `i … i + k`; -1 is "not found".
unfoldable pub find_from : (Word → Bool) → List Cell → (i k : ℕ) → Result ℤ
find_from test d i zero = ok (negsuc 0)
find_from test d i (suc k) =
    let rest = find_from test d (i + 1) k in
    (do x ← read_cell d i; if test x then ok (pos i) else rest)

unfoldable pub array_find : Array → Word → Result ℤ
array_find a v = find_from (λ x. x == v) a.data_cells 0 a.size

unfoldable pub is_zero : ℤ → Bool
is_zero (pos n) = n == 0
is_zero (negsuc n) = false

-- `cmp` is the caller's comparison.
unfoldable pub array_find_with_compare : (Word → Word → ℤ) → Array → Word → Result ℤ
unfolding is_zero
array_find_with_compare cmp a v = find_from (λ x. is_zero (cmp x v)) a.data_cells 0 a.size

-- `i < 0`
abbrev pub is_negative : ℤ → Bool
is_negative (pos n) = false
is_negative (negsuc n) = true

-- `int i = …`: an `intx` cut to 32 bits.
abbrev pub to_int : ℤ → ℤ
to_int n =
    let w : ℕ = to_word n % u32_mod in if ltb w (2 ^ 31) then pos w else negsuc (u32_mod - w - 1)

unfoldable pub array_find_or_add : Array → Word → Result (ℤ × Array)
array_find_or_add a v = do
  found ← array_find a v
  if is_negative (to_int found)
      then (do (w, b) ← array_push a v; ok (to_int (pos a.size), b))
      else ok (to_int found, a)

-- `memset(data, 0, size * sizeof(VALUE))`, unless `data` is NULL.
unfoldable pub clear_cells : List Cell → ℕ → Result (List Cell)
clear_cells [] n = ok []
clear_cells (c ∷ d) n = fill_cells null (c ∷ d) 0 n

unfoldable pub array_clear : Array → Result Array
array_clear a = do d ← clear_cells a.data_cells a.size; ok (record a { data_cells = d; size = 0 })

-- snow/array.c: `snow_create_array`, `snow_create_array_with_size`
abbrev pub create_array : Array
create_array = array_init

abbrev pub create_array_with_size : ℕ → Array
create_array_with_size n = if n == 0 then array_init_with_size 8 else array_init_with_size n

-- `for (i = 0; i < size; ++i) array->data[i] = data[i];` over the words given
unfoldable pub store_words : List Cell → ℕ → List Word → Result (List Cell)
store_words d i [] = ok d
store_words d i (x ∷ xs) = do d' ← write_cell d i x; store_words d' (i + 1) xs

unfoldable pub copy_array : List Word → Result Array
copy_array xs = do
  d ← store_words (create_array_with_size (length xs)).data_cells 0 xs
  ok (record (create_array_with_size (length xs)) { data_cells = d; size = length xs % u32_mod })

-- `snow_ref_array` borrows the caller's memory: the capacity is 0, so that growing copies.
abbrev pub ref_array : List Cell → ℕ → Array
ref_array d n = record { data_cells = d; size = n % u32_mod; alloc_size = 0 }
