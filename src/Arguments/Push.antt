-- ===== src/Arguments/Push.antt =====
-- Pushing arguments, with and without a name.
use snow.Base.{
  List, Returns, Returns-bind, [], arith, length, returns, suc, sym, ℕ, ◌++◌, ◌+◌, ◌<◌, ◌^◌, ◌∷◌,
  ◌≡◌,
}
use snow.Arguments.{Arguments, arguments_push, arguments_push_named}
use snow.Array.{u32_mod}
use snow.Array.Growth.{array_push-append, array_set-put}
use snow.Array.Holds.{Holds, put}
use snow.Array.Search.{array_find_or_add-slot, slot, slot-le-length, with_word}
use snow.Value.{Word, sn_nil, symbol_to_value}

-- The names and the values that the two arrays hold.
pub record HoldsArgs (args : Arguments) (ns ds : List Word) : Type 0 where
  pub names_held : Holds args.names ns
  pub data_held : Holds args.args_data ds

-- What a call returns, and the arguments that it leaves.
abbrev pub Left : Word → List Word → List Word → Word × Arguments → Type 0
Left v ns ds (w, args) = (w ≡ v) × HoldsArgs args ns ds

-- `snow_arguments_push` appends the value under the name nil.
pub arguments_push-append :
    {args : Arguments} {ns ds : List Word} (v : Word)
    → HoldsArgs args ns ds
    → suc (length ns) < u32_mod
    → suc (length ds) < u32_mod
    → Returns (Left v (ns ++ sn_nil ∷ []) (ds ++ v ∷ [])) (arguments_push args v)
unfolding arguments_push
arguments_push-append v h small small' =
    Returns-bind (array_push-append sn_nil h.names_held small) λ (w, ns) p.
      Returns-bind (array_push-append v h.data_held small')
        λ (u, ds) q. returns (q.0, record { names_held = p.1; data_held = q.1 })

-- `snow_arguments_push_named` stores the value at the name's index; a new name is added at the end of
-- the names, and the data grow with nils to reach its index.
pub arguments_push_named-slot :
    {args : Arguments} {ns ds : List Word} (sym : ℕ) (v : Word)
    → HoldsArgs args ns ds
    → length ns + 1 < 2 ^ 31
    → let vsym = symbol_to_value sym in
      Returns
        (Left v (with_word ns vsym) (put ds (slot ns vsym) v))
        (arguments_push_named args sym v)
unfolding arguments_push_named
arguments_push_named-slot {ns} sym v h small =
    let vsym = symbol_to_value sym in
    Returns-bind (array_find_or_add-slot vsym h.names_held small) λ (n, names) p. rw (p.0) (
      Returns-bind
        (array_set-put (slot ns vsym) v h.data_held (omega (arith, slot-le-length ns vsym)))
        λ (u, ds) q. returns (q.0, record { names_held = p.1; data_held = q.1 }))
