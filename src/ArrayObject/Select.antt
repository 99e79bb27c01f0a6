-- ===== src/ArrayObject/Select.antt =====
-- The elements that a closure picks: selecting, rejecting, and the first that is right.
use snow.Base.{
  Bool, List, Option, Result, Returns, Returns-bind, [], ap, append-nil, append_assoc, arith, false,
  if◌then◌else◌, length, length-append, none, not, ok, pos, refl, returns, some, subst, suc, sym,
  true, zero, ℕ, ◌++◌, ◌+◌, ◌<◌, ◌∙◌, ◌∷◌, ◌≡◌, ◌≤◌,
}
use snow.Array.Growth.{array_push-append}
use snow.Array.{Array, create_array_with_size, u32_mod}
use snow.Array.Holds.{Holds, create_array_with_size-Holds}
use snow.ArrayObject.Closures.{
  array_reject, array_select, detect_from, includes_from, kept_in, select_from,
}
use snow.ArrayObject.Iterate.{
  Holds-Round, Holds-last, Round, Runs, next_index, next_split, run_call, run_end,
}
use snow.Memory.{read_cell}
use snow.Value.{Word, eval_truth, int_to_value, sn_false, sn_nil}

-- The elements whose answers are kept.
abbrev pub picked : (Word → Bool) → List Word → List Word → List Word
picked keeps [] ws = []
picked keeps (x ∷ xs) [] = []
picked keeps (x ∷ xs) (w ∷ ws) = (if keeps w then x ∷ [] else []) ++ picked keeps xs ws

kept_in-append :
    (a : Array) {new_array : Array} {outs : List Word} (b : Bool) (i : ℕ) (x : Word)
    → read_cell a.data_cells i ≡ ok x
    → Holds new_array outs
    → suc (length outs) < u32_mod
    → Returns (λ b'. Holds b' (outs ++ (if b then x ∷ [] else []))) (kept_in a new_array i b)
unfolding kept_in
kept_in-append a false i x r h small = returns (rw append-nil h)
kept_in-append a true i x r h small =
    rw r (Returns-bind (array_push-append x h small) (λ (w, c) (q, k). returns k))

pub kept_length :
    (b : Bool) (x : Word) (outs : List Word)
    → length (outs ++ (if b then x ∷ [] else [])) ≤ suc (length outs)
kept_length true x outs = omega (arith, length-append outs (x ∷ []))
kept_length false x outs = rw append-nil (omega arith)

module _ {ℓ} {S : Type ℓ} (call : S → List Word → Result (Word × S)) (self : S → Array) where
  select_from-picked :
      (n : ℕ) (keeps : Word → Bool) {s t : S} {xs ws : List Word} {i : ℕ} (new_array : Array)
      (all done outs : List Word)
      → Holds (self s) all
      → all ≡ done ++ xs
      → i ≡ length done
      → Holds new_array outs
      → length outs ≤ length done
      → Runs call self (λ i x. x ∷ int_to_value (pos i) ∷ []) all s i xs ws t
      → length xs < n
      → length all < u32_mod
      → Returns
          (λ (b, u). Holds b (outs ++ picked keeps xs ws) × (u ≡ t))
          (select_from call self keeps n s new_array i)
  unfolding select_from
  select_from-picked zero keeps new_array all done outs h e at k few runs enough small =
      absurd (omega arith)
  select_from-picked (suc n) keeps {s} new_array all done outs h e at k few run_end enough small =
      rw (at, Holds-last (self s) all done h e) (returns (rw append-nil k, refl))
  select_from-picked (suc n) keeps {s} {i = i} new_array all done outs h e at k few
        (run_call {x} {w} {xs} {ws} t c ht runs) enough small =
      let r = subst (λ j. Round (self s) j x) (sym at) (Holds-Round (self s) all done x xs h e) in
      let r' = subst (λ j. Round (self t) j x) (sym at) (Holds-Round (self t) all done x xs ht e) in
      let count : i + 1 ≡ length (done ++ x ∷ []) = ap (λ j. j + 1) at ∙ next_index done x in
      let bound : suc (length outs) < u32_mod =
        omega (arith, ap length e, length-append done (x ∷ xs)) in
      let few' : length (outs ++ (if keeps w then x ∷ [] else [])) ≤ length (done ++ x ∷ []) =
        omega (arith, kept_length (keeps w) x outs, length-append done (x ∷ [])) in
      rw (r.more, r.read, c)
        (Returns-bind (kept_in-append (self t) (keeps w) i x r'.read k bound) (λ b kb.
          rw (← append_assoc outs (if keeps w then x ∷ [] else []) (picked keeps xs ws)) (
            select_from-picked n keeps b all (done ++ x ∷ [])
              (outs ++ (if keeps w then x ∷ [] else [])) ht (next_split done x xs e) count kb few'
              runs (omega arith) small)))

  -- If the closure can be called for each element and its index in order and leaves the array with its
  -- elements, then `_array_select` returns an array of the elements with true answers, in order, and
  -- `_array_reject` one of the others; one round more than elements is enough.
  pub array_select-picked :
      {s t : S} {xs ws : List Word} (n : ℕ)
      → Holds (self s) xs
      → Runs call self (λ i x. x ∷ int_to_value (pos i) ∷ []) xs s 0 xs ws t
      → length xs < n
      → Returns (λ (b, u). Holds b (picked eval_truth xs ws) × (u ≡ t)) (array_select call self n s)
        × Returns
            (λ (b, u). Holds b (picked (λ w. not (eval_truth w)) xs ws) × (u ≡ t))
            (array_reject call self n s)
  unfolding array_select array_reject
  array_select-picked {s} {xs} n h runs enough =
      let new = create_array_with_size-Holds (self s).size in
      (
        select_from-picked n eval_truth (create_array_with_size (self s).size) xs [] [] h refl refl
            new (omega arith) runs enough h.small,
        select_from-picked n (λ w. not (eval_truth w)) (create_array_with_size (self s).size) xs []
            [] h refl refl new (omega arith) runs enough h.small,
      )

  -- A search calls for the elements in order until an answer is true, and has the index and the element then.
  pub data Searches (shape : Word → List Word) (all : List Word)
      : S → ℕ → List Word → Option (ℕ × Word) → S → Type ℓ where
    nothing_left : {s : S} {i : ℕ} → Searches shape all s i [] none s
    hits :
        {s : S} {i : ℕ} {x w : Word} {xs : List Word} (t : S)
        → call s (shape x) ≡ ok (w, t)
        → eval_truth w ≡ true
        → Searches shape all s i (x ∷ xs) (some (i, x)) t
    misses :
        {s u : S} {i : ℕ} {x w : Word} {xs : List Word} {result : Option (ℕ × Word)} (t : S)
        → call s (shape x) ≡ ok (w, t)
        → eval_truth w ≡ false
        → Holds (self t) all
        → Searches shape all t (i + 1) xs result u
        → Searches shape all s i (x ∷ xs) result u

  abbrev pub found_element : Option (ℕ × Word) → Word
  found_element none = sn_nil
  found_element (some (i, x)) = x

  abbrev pub found_index : Option (ℕ × Word) → Word
  found_index none = sn_false
  found_index (some (i, x)) = int_to_value (pos i)

  detect_from-found :
      (n : ℕ) {s t : S} {xs : List Word} {i : ℕ} {result : Option (ℕ × Word)} (all done : List Word)
      → Holds (self s) all
      → all ≡ done ++ xs
      → i ≡ length done
      → Searches (λ x. x ∷ []) all s i xs result t
      → length xs < n
      → detect_from call self n s i ≡ ok (found_element result, t)
  unfolding detect_from
  detect_from-found zero all done h e at tries enough = absurd (omega arith)
  detect_from-found (suc n) {s} all done h e at nothing_left enough =
      rw (at, Holds-last (self s) all done h e) refl
  detect_from-found (suc n) {s} {i = i} all done h e at (hits {x} {w} {xs} t c right) enough =
      let r = subst (λ j. Round (self s) j x) (sym at) (Holds-Round (self s) all done x xs h e) in
      rw (r.more, r.got, c, right) refl
  detect_from-found (suc n) {s} {i = i} all done h e at (misses {x} {w} {xs} t c wrong ht tries)
        enough =
      let r = subst (λ j. Round (self s) j x) (sym at) (Holds-Round (self s) all done x xs h e) in
      let count : i + 1 ≡ length (done ++ x ∷ []) = ap (λ j. j + 1) at ∙ next_index done x in
      rw (r.more, r.got, c, wrong)
        (detect_from-found n all (done ++ x ∷ []) ht (next_split done x xs e) count tries
          (omega arith))

  includes_from-found :
      (n : ℕ) (v : Word) {s t : S} {xs : List Word} {i : ℕ} {result : Option (ℕ × Word)}
      (all done : List Word)
      → Holds (self s) all
      → all ≡ done ++ xs
      → i ≡ length done
      → Searches (λ x. x ∷ v ∷ []) all s i xs result t
      → length xs < n
      → includes_from call self v n s i ≡ ok (found_index result, t)
  unfolding includes_from
  includes_from-found zero v all done h e at tries enough = absurd (omega arith)
  includes_from-found (suc n) v {s} all done h e at nothing_left enough =
      rw (at, Holds-last (self s) all done h e) refl
  includes_from-found (suc n) v {s} {i = i} all done h e at (hits {x} {w} {xs} t c right) enough =
      let r = subst (λ j. Round (self s) j x) (sym at) (Holds-Round (self s) all done x xs h e) in
      rw (r.more, r.got, c, right) refl
  includes_from-found (suc n) v {s} {i = i} all done h e at (misses {x} {w} {xs} t c wrong ht tries)
        enough =
      let r = subst (λ j. Round (self s) j x) (sym at) (Holds-Round (self s) all done x xs h e) in
      let count : i + 1 ≡ length (done ++ x ∷ []) = ap (λ j. j + 1) at ∙ next_index done x in
      rw (r.more, r.got, c, wrong)
        (includes_from-found n v all (done ++ x ∷ []) ht (next_split done x xs e) count tries
          (omega arith))
