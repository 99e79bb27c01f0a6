-- ===== src/ArrayObject/Closures.antt =====
-- snow/array.c: the functions of arrays that call a closure or a method for the elements. What is called
-- may change the program's state and the array in it, so each round looks at the array again. Fuel counts
-- the rounds; a loop without enough of it traps.
use snow.Base.{
  Bool, List, Result, [], false, if◌then◌else◌, ltb, not, ok, pos, suc, trap, true, zero, ℕ, ◌+◌,
  ◌-◌, ◌==◌, ◌>>=◌, ◌∷◌,
}
use snow.Array.{Array, array_get, array_push, array_set, create_array_with_size}
use snow.ArrayObject.{is_array_type}
use snow.Memory.{read_cell}
use snow.Value.{ObjectType, Word, eval_truth, int_to_value, sn_false, sn_nil, sn_true}

-- `snow_array_push(new_array, INTERN->data[i])`, if the answer was right
unfoldable pub kept_in : Array → Array → ℕ → Bool → Result Array
kept_in a new_array i false = ok new_array
kept_in a new_array i true = do y ← read_cell a.data_cells i; (u, b) ← array_push new_array y; ok b

-- `call` is the call of the closure or method with its arguments, `self` the array of SELF in the state.
module _ {ℓ} {S : Type ℓ} (call : S → List Word → Result (Word × S)) (self : S → Array) where
  -- `_array_each`: the state when it returns the array
  unfoldable pub each_from : ℕ → S → ℕ → Result S
  each_from zero s i = trap
  each_from (suc n) s i =
      if ltb i (self s).size
      then (do
        x ← array_get (self s) (pos i)
        (w, t) ← call s (x ∷ int_to_value (pos i) ∷ [])
        each_from n t (i + 1))
      else ok s

  -- The loop of `_array_map`; no closure knows the new array yet.
  unfoldable pub map_from : ℕ → S → Array → ℕ → Result (Array × S)
  map_from zero s new_array i = trap
  map_from (suc n) s new_array i =
      if ltb i (self s).size
      then (do
        x ← array_get (self s) (pos i)
        (w, t) ← call s (x ∷ [])
        (u, b) ← array_set new_array (pos i) w
        map_from n t b (i + 1))
      else ok (new_array, s)

  unfoldable pub array_map : ℕ → S → Result (Array × S)
  array_map n s = map_from n s (create_array_with_size (self s).size) 0

  -- The loops of `_array_select` and `_array_reject`, which differ in the test of the answer.
  unfoldable pub select_from : (Word → Bool) → ℕ → S → Array → ℕ → Result (Array × S)
  select_from keeps zero s new_array i = trap
  select_from keeps (suc n) s new_array i =
      if ltb i (self s).size
      then (do
        x ← read_cell (self s).data_cells i
        (w, t) ← call s (x ∷ int_to_value (pos i) ∷ [])
        b ← kept_in (self t) new_array i (keeps w)
        select_from keeps n t b (i + 1))
      else ok (new_array, s)

  unfoldable pub array_select : ℕ → S → Result (Array × S)
  array_select n s = select_from eval_truth n s (create_array_with_size (self s).size) 0

  unfoldable pub array_reject : ℕ → S → Result (Array × S)
  array_reject n s =
      select_from (λ w. not (eval_truth w)) n s (create_array_with_size (self s).size) 0

  -- The loop of `_array_inject` over `k` more elements; the length was read before.
  unfoldable pub inject_from : S → Word → (i k : ℕ) → Result (Word × S)
  inject_from s carry i zero = ok (carry, s)
  inject_from s carry i (suc k) = do
    x ← read_cell (self s).data_cells i
    (w, t) ← call s (carry ∷ x ∷ int_to_value (pos i) ∷ [])
    inject_from t w (i + 1) k

  unfoldable pub array_inject : S → Result (Word × S)
  array_inject s =
      if ltb 0 (self s).size
      then (do x ← read_cell (self s).data_cells 0; inject_from s x 1 ((self s).size - 1))
      else ok (sn_nil, s)

  -- `_array_detect`
  unfoldable pub detect_from : ℕ → S → ℕ → Result (Word × S)
  detect_from zero s i = trap
  detect_from (suc n) s i =
      if ltb i (self s).size
      then (do
        x ← array_get (self s) (pos i)
        (w, t) ← call s (x ∷ [])
        if eval_truth w then ok (x, t) else detect_from n t (i + 1))
      else ok (sn_nil, s)

  -- `_array_includes_p`: the index of the first element whose method `=` says so of the word
  unfoldable pub includes_from : Word → ℕ → S → ℕ → Result (Word × S)
  includes_from v zero s i = trap
  includes_from v (suc n) s i =
      if ltb i (self s).size
      then (do
        x ← array_get (self s) (pos i)
        (w, t) ← call s (x ∷ v ∷ [])
        if eval_truth w then ok (int_to_value (pos i), t) else includes_from v n t (i + 1))
      else ok (sn_false, s)

  -- The loop of `_array_equals` over `k` more elements, with `other` in the state as well.
  unfoldable pub equals_from : (S → Array) → S → (i k : ℕ) → Result (Word × S)
  equals_from other s i zero = ok (sn_true, s)
  equals_from other s i (suc k) = do
    left ← array_get (self s) (pos i)
    right ← array_get (other s) (pos i)
    (w, t) ← call s (left ∷ right ∷ [])
    if eval_truth w then equals_from other t (i + 1) k else ok (sn_false, t)

  -- `_array_equals` after its checks
  unfoldable pub array_equals : (S → Array) → ObjectType → S → Result (Word × S)
  array_equals other other_type s =
      if not (is_array_type other_type)
      then ok (sn_false, s)
      else if not ((self s).size == (other s).size)
      then ok (sn_false, s)
      else equals_from other s 0 (self s).size
