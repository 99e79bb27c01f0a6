-- ===== src/Arguments/Name.antt =====
-- `snow_arguments_add_name`: a parameter's name takes the index where its value already is.
use snow.Base.{
  Bool-cases, List, Option, Returns, Returns-bind, Returns-mono, [], ap, append_assoc, arith, false,
  get_or, if◌then◌else◌, inl, inr, length, length-append, ltb, none, ok, pos, refl, returns, set,
  some, subst, suc, sym, true, ℕ, ℤ, ◌++◌, ◌+◌, ◌<◌, ◌∙◌, ◌∷◌, ◌≡◌,
}
use snow.Arguments.{Arguments, add_at_end, arguments_add_name, fill_unnamed}
use snow.Array.{Array, array_find, u32_mod}
use snow.Array.Access.{array_get-element}
use snow.Array.Growth.{array_push-append, array_set-put}
use snow.Array.Holds.{Holds, put-set}
use snow.Value.{Word, eval_truth, symbol_to_value}
use snow.Arguments.Push.{HoldsArgs}
use snow.Array.Search.{Located, absent, array_find-position, located, position-Located, slot}

-- The first index whose word is not true, or the length; and the sequence with the name there.
abbrev pub free_slot : List Word → ℕ
free_slot [] = 0
free_slot (x ∷ xs) = if eval_truth x then suc (free_slot xs) else 0

abbrev pub with_name : List Word → Word → List Word
with_name [] v = v ∷ []
with_name (x ∷ xs) v = if eval_truth x then x ∷ with_name xs v else v ∷ xs

-- What the search for an unnamed slot from index `i` on gives.
data Filled (v : Word) (i : ℕ) (all xs : List Word) : Option (ℤ × Array) → Type 0 where
  filled :
      {b : Array} (n : ℕ)
      → n ≡ i + free_slot xs
      → Holds b (set all n v)
      → free_slot xs < length xs
      → Filled v i all xs (some (pos n, b))
  all_named : free_slot xs ≡ length xs → with_name xs v ≡ xs ++ v ∷ [] → Filled v i all xs none

Filled-cons :
    {v : Word} {i : ℕ} {all xs : List Word} {o : Option (ℤ × Array)} (x : Word)
    → eval_truth x ≡ true
    → Filled v (i + 1) all xs o
    → Filled v i all (x ∷ xs) o
Filled-cons x t (filled n e h lt) = filled n (rw t (omega (arith, e))) h (rw t (omega (arith, lt)))
Filled-cons x t (all_named e w) = all_named (rw t (ap suc e)) (rw t (ap (λ u. x ∷ u) w))

set-with_name :
    (xs : List Word) (v : Word)
    → free_slot xs < length xs
    → set xs (free_slot xs) v ≡ with_name xs v
set-with_name [] v h = absurd (omega arith)
set-with_name (x ∷ xs) v h = elim (Bool-cases (eval_truth x)) [
  | inl t ↦ rw t (ap (λ u. x ∷ u) (set-with_name xs v (ground (arith, h))))
  | inr t ↦ rw t
]

get_or-middle :
    (done : List Word) (x : Word) (xs : List Word) → get_or (done ++ x ∷ xs) (length done) 0 ≡ x
get_or-middle [] x xs = refl
get_or-middle (y ∷ done) x xs = get_or-middle done x xs

fill_unnamed-Filled :
    {a : Array} (done xs all : List Word) (v : Word)
    → Holds a all
    → all ≡ done ++ xs
    → suc (length all) < u32_mod
    → Returns (Filled v (length done) all xs) (fill_unnamed a v (length done) (length xs))
unfolding fill_unnamed
fill_unnamed-Filled done [] all v h e small = returns (all_named refl refl)
fill_unnamed-Filled {a} done (x ∷ xs) all v h e small =
    rw (array_get-element (pos (length done)) h, at_x)
      (elim (Bool-cases (eval_truth x)) [
        | inl t ↦ rw t (
            Returns-mono
              (rw next (
                fill_unnamed-Filled (done ++ x ∷ []) xs all v h
                  (e ∙ sym (append_assoc done (x ∷ []) xs)) small))
              (λ o f. Filled-cons x t (rw next f)))
        | inr t ↦ rw t (
            Returns-bind (array_set-put (length done) v h (omega (arith, fits))) λ (w, b) p.
              returns (
                filled (length done) (rw t (omega arith))
                  (subst (Holds b) (put-set all (length done) v fits) (p.1)) (rw t (omega arith))))
      ])
  where
    at_x : get_or all (length done) 0 ≡ x
    at_x = ap (λ t. get_or t (length done) 0) e ∙ get_or-middle done x xs

    fits : length done < length all
    fits = omega (arith, ap length e, length-append done (x ∷ xs))

    next : length done + 1 ≡ length (done ++ x ∷ [])
    next = omega (arith, length-append done (x ∷ []))

-- The index of a parameter name and the names with it: the first argument that has the name, or else
-- the first that has none, or else a new one at the end.
abbrev pub name_slot : List Word → Word → ℕ
name_slot ns v = if ltb (slot ns v) (length ns) then slot ns v else free_slot ns

abbrev pub named : List Word → Word → List Word
named ns v = if ltb (slot ns v) (length ns) then ns else with_name ns v

abbrev pub Named : List Word → List Word → Word → ℤ × Arguments → Type 0
Named ns ds v (i, args) = (i ≡ pos (name_slot ns v)) × HoldsArgs args (named ns v) ds

add_at_end-Named :
    {a : Array} {ns : List Word} {v : Word} {o : Option (ℤ × Array)}
    → Holds a ns
    → suc (length ns) < u32_mod
    → Filled v 0 ns ns o
    → Returns (λ (i, b). (i ≡ pos (free_slot ns)) × Holds b (with_name ns v)) (add_at_end a v o)
unfolding add_at_end
add_at_end-Named {ns} {v} h small (filled {b} n e k lt) =
    let q : n ≡ free_slot ns = omega (arith, e) in
    returns (ap pos q, subst (Holds b) (ap (λ j. set ns j v) q ∙ set-with_name ns v lt) k)
add_at_end-Named {ns} {v} h small (all_named e w) =
    Returns-bind (array_push-append v h small)
      λ (x, b) p. returns (ap pos (h.size_eq ∙ sym e), subst (Holds b) (sym w) (p.1))

add_name_at :
    {args : Arguments} {ns ds : List Word} {r : ℤ} (sym : ℕ)
    → HoldsArgs args ns ds
    → suc (length ns) < u32_mod
    → Located ns (symbol_to_value sym) 0 r
    → array_find args.names (symbol_to_value sym) ≡ ok r
    → Returns (Named ns ds (symbol_to_value sym)) (arguments_add_name args sym)
unfolding arguments_add_name
add_name_at {ns} sym h small (located n e lt w) found =
    let there : ltb (slot ns (symbol_to_value sym)) (length ns) ≡ true = ground (arith, lt) in
    rw found (returns (rw there (ap pos (omega (arith, e))), rw there h))
add_name_at {args} {ns} sym h small (absent e w) found =
    let vsym = symbol_to_value sym in
    let not_there : ltb (slot ns vsym) (length ns) ≡ false = ground (arith, e) in
    rw found (
      Returns-bind
        (subst (λ k. Returns (Filled vsym 0 ns ns) (fill_unnamed args.names vsym 0 k))
          (mathlib.Core.Path.sym h.names_held.size_eq)
          (fill_unnamed-Filled [] ns ns vsym h.names_held refl small))
        λ o f. Returns-bind (add_at_end-Named h.names_held small f) λ (i, b) p.
          returns (
            rw not_there (p.0),
            record { names_held = rw not_there (p.1); data_held = h.data_held },
          ))

-- On arguments that hold names and values, with room for one more name, `snow_arguments_add_name`
-- returns the index that the name has afterwards: its own if an argument was passed under it, else
-- that of the first argument without a name, else a new one. The data stay.
pub arguments_add_name-Named :
    {args : Arguments} {ns ds : List Word} (sym : ℕ)
    → HoldsArgs args ns ds
    → suc (length ns) < u32_mod
    → Returns (Named ns ds (symbol_to_value sym)) (arguments_add_name args sym)
arguments_add_name-Named {ns} sym h small =
    add_name_at sym h small (position-Located ns (symbol_to_value sym))
      ((array_find-position (λ x y. pos 0) (symbol_to_value sym) h.names_held).0)
