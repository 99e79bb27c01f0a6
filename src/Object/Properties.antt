-- ===== src/Object/Properties.antt =====
-- Properties of snow/object.c: a getter and a setter do not get in each other's way.
use snow.Base.{
  Bool-cases, List, Returns, Returns-bind, [], ap, arith, get_or, get_or-beyond, inl, inr, length,
  length-append, length-replicate, ltb, ok, pos, refl, replicate, returns, set, some, suc, sym,
  zero, ℕ, ℤ, ◌*◌, ◌++◌, ◌+◌, ◌-◌, ◌<◌, ◌^◌, ◌∙◌, ◌∷◌, ◌≡◌, ◌≤◌,
}
use snow.Array.Holds.{Holds, get_or-put, put}
use snow.Array.Search.{
  Located, absent, array_find-position, array_find-slot, located, position-Located, slot,
  slot-le-length, slot-with_word, with_word,
}
use snow.Object.{
  SnObject, create_or_get_index_of_property, getter_index, property_at, set_property_getter,
  setter_index,
}
use snow.Value.{Word, null, sn_nil, symbol_to_value}
use snow.Array.{array_find}
use snow.Array.Access.{array_get-element}
use snow.Array.Growth.{array_push-append, array_set-put}

pub record HoldsProperties (o : SnObject) (ns ds : List Word) : Type 0 where
  pub names_held : Holds o.property_names ns
  pub data_held : Holds o.property_data ds

get_or-append_beyond :
    (xs ys : List Word) (j : ℕ) → length xs + length ys ≤ j → get_or (xs ++ ys) j null ≡ null
get_or-append_beyond xs ys j h =
    get_or-beyond (xs ++ ys) j null (omega (arith, length-append xs ys))

get_or-set_above :
    (xs : List Word) (i j : ℕ) (v : Word) → i < j → get_or (set xs i v) j null ≡ get_or xs j null
get_or-set_above [] i j v lt = refl
get_or-set_above (x ∷ xs) zero zero v lt = absurd (omega arith)
get_or-set_above (x ∷ xs) zero (suc j) v lt = refl
get_or-set_above (x ∷ xs) (suc i) zero v lt = absurd (omega arith)
get_or-set_above (x ∷ xs) (suc i) (suc j) v lt = get_or-set_above xs i j v (omega arith)

-- A write changes nothing behind it.
get_or-put_above :
    (xs : List Word) (i j : ℕ) (v : Word) → i < j → get_or (put xs i v) j null ≡ get_or xs j null
get_or-put_above xs i j v lt = elim (Bool-cases (ltb i (length xs))) [
  | inl e ↦ rw e (get_or-set_above xs i j v lt)
  | inr e ↦
      let gap : length (replicate (i - length xs) sn_nil ++ v ∷ []) ≡ i - length xs + 1 = omega (
        arith,
        length-append (replicate (i - length xs) sn_nil) (v ∷ []),
        length-replicate {A = Word} (i - length xs) sn_nil,
      ) in
      let over_end : length xs ≤ i = ground (arith, e) in
      rw e (
        get_or-append_beyond xs (replicate (i - length xs) sn_nil ++ v ∷ []) j (omega arith)
        ∙ sym (get_or-beyond xs j null (omega arith)))
]

index_at :
    {o : SnObject} {ns ds : List Word} {r : ℤ} (s : ℕ)
    → HoldsProperties o ns ds
    → length ns + 1 < 2 ^ 31
    → Located ns (symbol_to_value s) 0 r
    → array_find o.property_names (symbol_to_value s) ≡ ok r
    → Returns
        (λ (idx, p).
          (idx ≡ pos (slot ns (symbol_to_value s)))
          × HoldsProperties p (with_word ns (symbol_to_value s)) ds)
        (create_or_get_index_of_property o s)
unfolding create_or_get_index_of_property
index_at s h small (located n e lt w) found = rw found (
    returns (
      ap pos (omega (arith, e)),
      record { names_held = rw w h.names_held; data_held = h.data_held },
    ))
index_at s h small (absent e w) found = rw found (
    Returns-bind (array_push-append (symbol_to_value s) h.names_held (omega arith))
      (λ (x, b) (q, k). returns (
        ap pos (h.names_held.size_eq ∙ sym e),
        record { names_held = rw w k; data_held = h.data_held },
      )))

indexed :
    {o : SnObject} {ns ds : List Word} (s : ℕ)
    → HoldsProperties o ns ds
    → length ns + 1 < 2 ^ 31
    → Returns
        (λ (idx, p).
          (idx ≡ pos (slot ns (symbol_to_value s)))
          × HoldsProperties p (with_word ns (symbol_to_value s)) ds)
        (create_or_get_index_of_property o s)
unfolding create_or_get_index_of_property
indexed {o} {ns} {ds} s h small =
    index_at s h small (position-Located ns (symbol_to_value s))
      ((array_find-position (λ x y. pos 0) (symbol_to_value s) h.names_held).0)

-- What the lookup of a property's accessor finds.
property_at-slot :
    {o : SnObject} {ns ds : List Word} (s n : ℕ) (accessor : ℤ → ℤ)
    → HoldsProperties o ns ds
    → slot ns (symbol_to_value s) < length ns
    → accessor (pos (slot ns (symbol_to_value s))) ≡ pos n
    → property_at o s accessor ≡ ok (some (get_or ds n null))
unfolding property_at
property_at-slot s n accessor h lt e =
    rw
      (
        array_find-slot (symbol_to_value s) h.names_held lt,
        e,
        array_get-element (pos n) h.data_held,
      )
      refl

-- On an object with fewer than 2^30 - 1 properties, `snow_object_set_property_getter` succeeds, and
-- afterwards the property has the getter, the setter is what the data held at its place before, and
-- the names and data are those before with the name and the getter stored.
pub set_property_getter-property_at :
    {o : SnObject} {ns ds : List Word} (s : ℕ) (getter : Word)
    → HoldsProperties o ns ds
    → length ns + 1 < 2 ^ 30
    → Returns
        (λ p.
          (property_at p s getter_index ≡ ok (some getter))
          × (property_at p s setter_index
              ≡ ok (some (get_or ds (2 * slot ns (symbol_to_value s) + 1) null)))
          × HoldsProperties p
              (with_word ns (symbol_to_value s))
              (put ds (2 * slot ns (symbol_to_value s)) getter))
        (set_property_getter o s getter)
unfolding set_property_getter
set_property_getter-property_at {ns} {ds} s getter h small =
    let v : Word = symbol_to_value s in
    let (same, inside, word) = slot-with_word ns v in
    let le = slot-le-length ns v in
    Returns-bind (indexed s h (omega arith)) (λ (idx, p) (e, k). rw e (
      Returns-bind (array_set-put (2 * slot ns v) getter k.data_held (omega arith))
        (λ (w, b) (q, d).
          let now : HoldsProperties (record p { property_data = b }) (with_word ns v)
              (put ds (2 * slot ns v) getter) =
            record { names_held = k.names_held; data_held = d } in
          returns (
            property_at-slot s (2 * slot ns v) getter_index now (omega (arith, same, inside))
                  (ap (λ t. pos (2 * t)) same)
                ∙ ap (λ t. ok (some t)) (get_or-put ds (2 * slot ns v) getter),
            property_at-slot s (2 * slot ns v + 1) setter_index now (omega (arith, same, inside))
                  (ap (λ t. pos (2 * t + 1)) same)
                ∙ ap (λ t. ok (some t))
                    (get_or-put_above ds (2 * slot ns v) (2 * slot ns v + 1) getter (omega arith)),
            now,
          ))))
