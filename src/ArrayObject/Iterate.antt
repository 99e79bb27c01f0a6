-- ===== src/ArrayObject/Iterate.antt =====
-- Mapping, walking and folding the elements of an array, in order.
use snow.Base.{
  List, Result, Returns, Returns-bind, [], ap, append-nil, append_assoc, arith, false, get_or,
  length, length-append, ltb, lt→ltb, ok, pos, refl, returns, subst, suc, sym, true, zero, ℕ, ◌++◌,
  ◌+◌, ◌-◌, ◌<◌, ◌∙◌, ◌∷◌, ◌≡◌,
}
use snow.Array.{Array, array_get, create_array_with_size, u32_mod}
use snow.Array.Access.{array_get-element, read_held}
use snow.Array.Holds.{Holds, create_array_with_size-Holds, put}
use snow.ArrayObject.Closures.{array_inject, array_map, each_from, inject_from, map_from}
use snow.Memory.{read_cell}
use snow.Value.{Word, int_to_value}
use snow.Array.Growth.{array_set-put, put_end}

get_or-middle :
    (done : List Word) (x : Word) (xs : List Word) → get_or (done ++ x ∷ xs) (length done) 0 ≡ x
get_or-middle [] x xs = refl
get_or-middle (y ∷ done) x xs = get_or-middle done x xs

-- In the round for the element behind `done` the loop goes on, and finds it by index or in memory.
pub record Round (a : Array) (i : ℕ) (x : Word) : Type 0 where
  pub more : ltb i a.size ≡ true
  pub got : array_get a (pos i) ≡ ok x
  pub read : read_cell a.data_cells i ≡ ok x

pub Holds-Round :
    (a : Array) (all done : List Word) (x : Word) (xs : List Word)
    → Holds a all
    → all ≡ done ++ (x ∷ xs)
    → Round a (length done) x
Holds-Round a all done x xs h e =
    let here : length done < length all = omega (arith, ap length e, length-append done (x ∷ xs)) in
    let value : get_or all (length done) 0 ≡ x =
      ap (λ t. get_or t (length done) 0) e ∙ get_or-middle done x xs in
    record {
      more = lt→ltb (length done) a.size (omega (arith, h.size_eq));
      got = array_get-element (pos (length done)) h ∙ ap ok value;
      read = read_held (length done) h here ∙ ap ok value;
    }

-- Behind the last element it ends.
pub Holds-last :
    (a : Array) (all done : List Word)
    → Holds a all
    → all ≡ done ++ []
    → ltb (length done) a.size ≡ false
Holds-last a all done h e = ground (arith, h.size_eq, ap length e, length-append done [])

pub next_index : (done : List Word) (x : Word) → length done + 1 ≡ length (done ++ x ∷ [])
next_index done x = omega (arith, length-append done (x ∷ []))

pub next_split :
    {all : List Word} (done : List Word) (x : Word) (xs : List Word)
    → all ≡ done ++ (x ∷ xs)
    → all ≡ (done ++ x ∷ []) ++ xs
next_split done x xs e = e ∙ sym (append_assoc done (x ∷ []) xs)

module _ {ℓ} {S : Type ℓ} (call : S → List Word → Result (Word × S)) (self : S → Array) where
  -- The calls for elements in order, their answers, and the state that they lead to. Each call leaves the
  -- array with the same elements. `shape` gives the arguments for an index and an element.
  pub data Runs (shape : ℕ → Word → List Word) (all : List Word)
      : S → ℕ → List Word → List Word → S → Type ℓ where
    run_end : {s : S} {i : ℕ} → Runs shape all s i [] [] s
    run_call :
        {s u : S} {i : ℕ} {x w : Word} {xs ws : List Word} (t : S)
        → call s (shape i x) ≡ ok (w, t)
        → Holds (self t) all
        → Runs shape all t (i + 1) xs ws u
        → Runs shape all s i (x ∷ xs) (w ∷ ws) u

  map_from-answers :
      (n : ℕ) {s t : S} {xs ws : List Word} {i : ℕ} (new_array : Array) (all done outs : List Word)
      → Holds (self s) all
      → all ≡ done ++ xs
      → i ≡ length done
      → Holds new_array outs
      → length outs ≡ length done
      → Runs (λ i x. x ∷ []) all s i xs ws t
      → length xs < n
      → length all < u32_mod
      → Returns (λ (b, u). Holds b (outs ++ ws) × (u ≡ t)) (map_from call self n s new_array i)
  unfolding map_from
  map_from-answers zero new_array all done outs h e at k same runs enough small =
      absurd (omega arith)
  map_from-answers (suc n) {s} new_array all done outs h e at k same run_end enough small =
      rw (at, Holds-last (self s) all done h e) (returns (rw append-nil k, refl))
  map_from-answers (suc n) {s} {i = i} new_array all done outs h e at k same
        (run_call {x} {w} {xs} {ws} t c ht runs) enough small =
      let r = subst (λ j. Round (self s) j x) (sym at) (Holds-Round (self s) all done x xs h e) in
      let end : i ≡ length outs = at ∙ sym same in
      let appended : put outs i w ≡ outs ++ w ∷ [] = ap (λ j. put outs j w) end ∙ put_end outs w in
      let one_more : length (outs ++ w ∷ []) ≡ length (done ++ x ∷ []) =
        omega (arith, same, length-append outs (w ∷ []), length-append done (x ∷ [])) in
      let count : i + 1 ≡ length (done ++ x ∷ []) = ap (λ j. j + 1) at ∙ next_index done x in
      let bound : suc i < u32_mod = omega (arith, at, ap length e, length-append done (x ∷ xs)) in
      rw (r.more, r.got, c)
        (Returns-bind (array_set-put i w k bound) (λ (u, b) (q, kb).
          rw (← append_assoc outs (w ∷ []) ws) (
            map_from-answers n b all (done ++ x ∷ []) (outs ++ w ∷ []) ht (next_split done x xs e)
              count (subst (Holds b) appended kb) one_more runs (omega arith) small)))

  -- If the closure can be called for each element in order and leaves the array with its elements, then
  -- `_array_map` with one round more than elements returns an array of its answers.
  pub array_map-answers :
      {s t : S} {xs ws : List Word} (n : ℕ)
      → Holds (self s) xs
      → Runs (λ i x. x ∷ []) xs s 0 xs ws t
      → length xs < n
      → Returns (λ (b, u). Holds b ws × (u ≡ t)) (array_map call self n s)
  unfolding array_map
  array_map-answers {s} {xs} n h runs enough =
      map_from-answers n (create_array_with_size (self s).size) xs [] [] h refl refl
        (create_array_with_size-Holds (self s).size) refl runs enough h.small

  each_from-end :
      (n : ℕ) {s t : S} {xs ws : List Word} {i : ℕ} (all done : List Word)
      → Holds (self s) all
      → all ≡ done ++ xs
      → i ≡ length done
      → Runs (λ i x. x ∷ int_to_value (pos i) ∷ []) all s i xs ws t
      → length xs < n
      → each_from call self n s i ≡ ok t
  unfolding each_from
  each_from-end zero all done h e at runs enough = absurd (omega arith)
  each_from-end (suc n) {s} all done h e at run_end enough =
      rw (at, Holds-last (self s) all done h e) refl
  each_from-end (suc n) {s} {i = i} all done h e at (run_call {x} {w} {xs} {ws} t c ht runs)
        enough =
      let r = subst (λ j. Round (self s) j x) (sym at) (Holds-Round (self s) all done x xs h e) in
      let count : i + 1 ≡ length (done ++ x ∷ []) = ap (λ j. j + 1) at ∙ next_index done x in
      rw (r.more, r.got, c)
        (each_from-end n all (done ++ x ∷ []) ht (next_split done x xs e) count runs (omega arith))

  -- Under the same conditions `_array_each` calls the closure with each element and its index, in order.
  pub array_each-end :
      {s t : S} {xs ws : List Word} (n : ℕ)
      → Holds (self s) xs
      → Runs (λ i x. x ∷ int_to_value (pos i) ∷ []) xs s 0 xs ws t
      → length xs < n
      → each_from call self n s 0 ≡ ok t
  array_each-end {xs} n h runs enough = each_from-end n xs [] h refl refl runs enough

  -- The calls of a fold: each gets the answer of the one before.
  pub data Folds (all : List Word) : S → Word → ℕ → List Word → Word → S → Type ℓ where
    fold_end : {s : S} {carry : Word} {i : ℕ} → Folds all s carry i [] carry s
    fold_call :
        {s u : S} {i : ℕ} {carry x last_carry : Word} {xs : List Word} (w : Word) (t : S)
        → call s (carry ∷ x ∷ int_to_value (pos i) ∷ []) ≡ ok (w, t)
        → Holds (self t) all
        → Folds all t w (i + 1) xs last_carry u
        → Folds all s carry i (x ∷ xs) last_carry u

  inject_from-fold :
      (k : ℕ) {s t : S} {xs : List Word} {carry result : Word} {i : ℕ} (all done : List Word)
      → Holds (self s) all
      → all ≡ done ++ xs
      → i ≡ length done
      → k ≡ length xs
      → Folds all s carry i xs result t
      → inject_from call self s carry i k ≡ ok (result, t)
  unfolding inject_from
  inject_from-fold zero all done h e at count fold_end = refl
  inject_from-fold (suc k) all done h e at count fold_end = absurd (omega arith)
  inject_from-fold zero all done h e at count (fold_call w t c ht folds) = absurd (omega arith)
  inject_from-fold (suc k) {s} {i = i} all done h e at count (fold_call {x} {xs} w t c ht folds) =
      let r = subst (λ j. Round (self s) j x) (sym at) (Holds-Round (self s) all done x xs h e) in
      let next : i + 1 ≡ length (done ++ x ∷ []) = ap (λ j. j + 1) at ∙ next_index done x in
      rw (r.read, c)
        (inject_from-fold k all (done ++ x ∷ []) ht (next_split done x xs e) next (omega arith)
          folds)

  -- `_array_inject` folds the elements from the first one on; without elements it returns nil.
  pub array_inject-fold :
      {s t : S} {xs : List Word} {x result : Word}
      → Holds (self s) (x ∷ xs)
      → Folds (x ∷ xs) s x 1 xs result t
      → array_inject call self s ≡ ok (result, t)
  unfolding array_inject
  array_inject-fold {s} {xs} {x} h folds =
      let r = Holds-Round (self s) (x ∷ xs) [] x xs h refl in
      let left : (self s).size - 1 ≡ length xs = omega (arith, h.size_eq) in
      rw (r.more, r.read)
        (inject_from-fold ((self s).size - 1) (x ∷ xs) (x ∷ []) h refl refl left folds)
