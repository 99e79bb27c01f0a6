-- ===== src/Arguments/Lookup.antt =====
-- Reading arguments by name, by index, or by whichever of the two the caller used.
use snow.Base.{
  Bool-cases, List, Option, Returns, Returns-mono, [], ap, append_assoc, arith, false, get_or,
  if◌then◌else◌, inl, inr, length, length-append, ltb, none, not, ok, pos, refl, some, subst, suc,
  sym, true, zero, ℕ, ◌&&◌, ◌++◌, ◌+◌, ◌-◌, ◌<◌, ◌==◌, ◌^◌, ◌∙◌, ◌∷◌, ◌≡◌, ◌≢◌,
}
use snow.Arguments.{
  Arguments, arguments_get_by_name, arguments_get_by_name_at, arguments_get_index_for_name,
  arguments_push_named, named_at_loop,
}
use snow.Arguments.Push.{HoldsArgs, arguments_push_named-slot}
use snow.Array.{array_find, array_get}
use snow.Array.Access.{array_get-element}
use snow.Array.Holds.{get_or-put}
use snow.Array.Search.{array_find-slot, slot, slot-with_word}
use snow.Value.{Word, is_nil, null, sn_nil, symbol_to_value, value_to_symbol}

-- On arguments that hold fewer than 2^31 - 1 names, a named push succeeds and returns the value, and
-- afterwards the value is read back under the name, whose index is its first one.
pub arguments_get_by_name-push_named :
    {args : Arguments} {ns ds : List Word} (s : ℕ) (v : Word)
    → HoldsArgs args ns ds
    → length ns + 1 < 2 ^ 31
    → Returns
        (λ (w, args').
          (w ≡ v)
          × (arguments_get_by_name (some args') s ≡ ok v)
          × (arguments_get_index_for_name args' s ≡ ok (pos (slot ns (symbol_to_value s)))))
        (arguments_push_named args s v)
unfolding arguments_get_by_name arguments_get_index_for_name
arguments_get_by_name-push_named {ns} {ds} s v h small =
    let vsym = symbol_to_value s in
    Returns-mono (arguments_push_named-slot s v h small) λ (w, args') (e, h').
      let (same, lt, there) = slot-with_word ns vsym in
      let found : array_find args'.names vsym ≡ ok (pos (slot ns vsym)) =
        array_find-slot vsym h'.names_held (rw same lt) ∙ ap (λ k. ok (pos k)) same in
      (
        e,
        rw (found, array_get-element (pos (slot ns vsym)) h'.data_held)
            (ap ok (get_or-put ds (slot ns vsym) v)),
        found,
      )

-- A call's arguments as pairs of name and value.
abbrev pub Pairs : Type 0
Pairs = List (Word × Word)

abbrev pub names_of : Pairs → List Word
names_of [] = []
names_of ((n, d) ∷ ps) = n ∷ names_of ps

abbrev pub values_of : Pairs → List Word
values_of [] = []
values_of ((n, d) ∷ ps) = d ∷ values_of ps

-- No value is NULL.
abbrev pub NoNull : Pairs → Type 0
NoNull [] = Unit
NoNull ((n, d) ∷ ps) = (d ≢ null) × NoNull ps

-- The first value passed under a name, and the value of the unnamed argument of an index.
abbrev pub value_of_name : Pairs → ℕ → Option Word
value_of_name [] s = none
value_of_name ((n, d) ∷ ps) s =
    if not (n == sn_nil) && (value_to_symbol n == s) then some d else value_of_name ps s

abbrev pub unnamed_or : Pairs → ℕ → Word → Word
unnamed_or [] i other = other
unnamed_or ((n, d) ∷ ps) zero other = if n == sn_nil then d else unnamed_or ps zero other
unnamed_or ((n, d) ∷ ps) (suc i) other =
    if n == sn_nil then unnamed_or ps i other else unnamed_or ps (suc i) other

abbrev pub or_else : Option Word → Word → Word
or_else (some v) w = v
or_else none w = w

length-names_of : (ps : Pairs) → length (values_of ps) ≡ length (names_of ps)
length-names_of [] = refl
length-names_of ((n, d) ∷ ps) = ap suc (length-names_of ps)

read_middle :
    (done : Pairs) (n d : Word) (ps : Pairs)
    → (get_or (names_of (done ++ (n, d) ∷ ps)) (length done) 0 ≡ n)
      × (get_or (values_of (done ++ (n, d) ∷ ps)) (length done) 0 ≡ d)
read_middle [] n d ps = (refl, refl)
read_middle ((m, e) ∷ done) n d ps = read_middle done n d ps

-- What the loop has seen of the unnamed arguments: `u` of them, and the one of the index if it is past.
abbrev seen : Pairs → (idx u : ℕ) → Word → Word
seen ps idx u unnamed = if ltb idx u then unnamed else unnamed_or ps (idx - u) unnamed

unnamed_or-unnamed :
    (n d : Word) (ps : Pairs) (k : ℕ) (other : Word)
    → (n == sn_nil) ≡ true
    → unnamed_or ((n, d) ∷ ps) k other ≡ (if k == 0 then d else unnamed_or ps (k - 1) other)
unnamed_or-unnamed n d ps zero other e = rw e
unnamed_or-unnamed n d ps (suc k) other e =
    let q : suc k - 1 ≡ k = omega arith in
    let z : (suc k == 0) ≡ false = ground arith in
    rw (e, z) (ap (λ j. unnamed_or ps j other) (sym q))

unnamed_or-named :
    (n d : Word) (ps : Pairs) (k : ℕ) (other : Word)
    → (n == sn_nil) ≡ false
    → unnamed_or ((n, d) ∷ ps) k other ≡ unnamed_or ps k other
unnamed_or-named n d ps zero other e = rw e
unnamed_or-named n d ps (suc k) other e = rw e

seen-unnamed :
    (n d : Word) (ps : Pairs) (idx u : ℕ) (unnamed : Word)
    → (n == sn_nil) ≡ true
    → seen ps idx (u + 1) (if u == idx then d else unnamed) ≡ seen ((n, d) ∷ ps) idx u unnamed
seen-unnamed n d ps idx u unnamed e =
    let q : idx - (u + 1) ≡ idx - u - 1 = omega arith in
    rw (unnamed_or-unnamed n d ps (idx - u) unnamed e) (ground (arith, q))

seen-named :
    (n d : Word) (ps : Pairs) (idx u : ℕ) (unnamed : Word)
    → (n == sn_nil) ≡ false
    → seen ps idx u unnamed ≡ seen ((n, d) ∷ ps) idx u unnamed
seen-named n d ps idx u unnamed e = rw (unnamed_or-named n d ps (idx - u) unnamed e)

named_at_loop-value :
    {args : Arguments} (s idx : ℕ) (done ps all : Pairs) (u : ℕ) (unnamed : Word)
    → HoldsArgs args (names_of all) (values_of all)
    → NoNull ps
    → all ≡ done ++ ps
    → named_at_loop args s idx (length done) (length ps) u unnamed
      ≡ ok (or_else (value_of_name ps s) (seen ps idx u unnamed))
unfolding named_at_loop
named_at_loop-value s idx done [] all u unnamed h ne e = ap ok (ground arith)
named_at_loop-value {args} s idx done ((n, d) ∷ ps) all u unnamed h (v, ne) e =
    rw (read_name, read_value)
      (elim (Bool-cases (n == sn_nil)) [
        | inl is_nil ↦
            rw (is_nil, next)
              (named_at_loop-value s idx (done ++ (n, d) ∷ []) ps all (u + 1)
                  (if u == idx then d else unnamed) h ne regroup
                ∙ ap (λ w. ok (or_else (value_of_name ps s) w))
                    (seen-unnamed n d ps idx u unnamed is_nil))
        | inr is_named ↦ elim (Bool-cases (value_to_symbol n == s)) [
          | inl hit ↦
              rw (is_named, hit) (let real : (d == null) ≡ false = ground (arith, v) in rw real)
          | inr other ↦
              rw (is_named, other, next)
                (named_at_loop-value s idx (done ++ (n, d) ∷ []) ps all u unnamed h ne regroup
                  ∙ ap (λ w. ok (or_else (value_of_name ps s) w))
                      (seen-named n d ps idx u unnamed is_named))
        ]
      ])
  where
    at : (get_or (names_of all) (length done) 0 ≡ n) × (get_or (values_of all) (length done) 0 ≡ d)
    at =
        subst
          (λ t.
            (get_or (names_of t) (length done) 0 ≡ n) × (get_or (values_of t) (length done) 0 ≡ d))
          (sym e) (read_middle done n d ps)

    read_name : array_get args.names (pos (length done)) ≡ ok n
    read_name = array_get-element (pos (length done)) h.names_held ∙ ap ok (at.0)

    read_value : array_get args.args_data (pos (length done)) ≡ ok d
    read_value = array_get-element (pos (length done)) h.data_held ∙ ap ok (at.1)

    next : length done + 1 ≡ length (done ++ (n, d) ∷ [])
    next = omega (arith, length-append done ((n, d) ∷ []))

    regroup : all ≡ (done ++ (n, d) ∷ []) ++ ps
    regroup = e ∙ sym (append_assoc done ((n, d) ∷ []) ps)

length-values_of : (ps : Pairs) → length (values_of ps) ≡ length ps
length-values_of [] = refl
length-values_of ((n, d) ∷ ps) = ap suc (length-values_of ps)

-- On arguments that hold pairs of a name and a value that is not NULL, `snow_arguments_get_by_name_at`
-- returns the first value passed under the name, and if there is none the unnamed argument of the
-- index, or NULL.
pub arguments_get_by_name_at-value :
    {args : Arguments} (s idx : ℕ) (ps : Pairs)
    → HoldsArgs args (names_of ps) (values_of ps)
    → NoNull ps
    → arguments_get_by_name_at args s idx
      ≡ ok (or_else (value_of_name ps s) (unnamed_or ps idx null))
unfolding arguments_get_by_name_at
arguments_get_by_name_at-value {args} s idx ps h ne =
    let count : args.args_data.size ≡ length ps = h.data_held.size_eq ∙ length-values_of ps in
    let all : idx - 0 ≡ idx = omega arith in
    ap (λ k. named_at_loop args s idx 0 k 0 null) count
    ∙ named_at_loop-value s idx [] ps ps 0 null h ne refl
    ∙ ap (λ w. ok (or_else (value_of_name ps s) w)) (ground (arith, all))
