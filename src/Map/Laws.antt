-- ===== src/Map/Laws.antt =====
-- Reading after writing, for every comparison that is an equivalence.
use snow.Map.{Compare, SnMap, Tuple, get_from, is_same, map_get, map_set, set_in}
use snow.Base.{
  Bool, Bool-cases, List, Returns, [], arith, false, if◌then◌else◌, inl, inr, length, refl, returns,
  true, ◌+◌, ◌==◌, ◌||◌, ◌∷◌, ◌≡◌, ◌≢◌,
}
use snow.Value.{Word, null}

-- What the map relies on of a comparison: it tells an equivalence of keys.
pub record IsEquivalence (cmp : Compare) : Type 0 where
  pub same_refl : (a : Word) → is_same (cmp a a) ≡ true
  pub same_sym : (a b : Word) → is_same (cmp a b) ≡ true → is_same (cmp b a) ≡ true
  pub same_trans :
      (a b c : Word)
      → is_same (cmp a b) ≡ true
      → is_same (cmp b c) ≡ true
      → is_same (cmp a c) ≡ true

-- Keys that compare equal are found alike.
get_from-same :
    (cmp : Compare) (eqv : IsEquivalence cmp) (ts : List Tuple) (j k : Word)
    → is_same (cmp j k) ≡ true
    → get_from cmp ts j ≡ get_from cmp ts k
unfolding get_from
get_from-same cmp eqv [] j k e = refl
get_from-same cmp eqv (t ∷ ts) j k e = ground (
  arith,
  get_from-same cmp eqv ts j k e,
  eqv.same_trans t.key j k,
  eqv.same_trans t.key k j,
  eqv.same_sym j k,
)

get_from-set_in :
    (cmp : Compare) (eqv : IsEquivalence cmp) (ts : List Tuple) (j k v : Word)
    → get_from cmp (set_in cmp ts k v) j ≡ (if is_same (cmp k j) then v else get_from cmp ts j)
unfolding get_from set_in
get_from-set_in cmp eqv [] j k v = refl
get_from-set_in cmp eqv (t ∷ ts) j k v = ground (
  arith,
  get_from-set_in cmp eqv ts j k v,
  eqv.same_trans t.key k j,
  eqv.same_trans k t.key j,
  eqv.same_sym t.key k,
  eqv.same_sym t.key j,
  eqv.same_trans k j t.key,
  eqv.same_sym k t.key,
)

-- If the comparison of a map is an equivalence and the key is not NULL, then `snow_map_set` succeeds,
-- and afterwards the key, and every key that compares equal to it, has the new value, and every other
-- key the value that it had.
pub map_get-map_set :
    (m : SnMap) (j k v : Word)
    → IsEquivalence m.compare_with
    → k ≢ null
    → Returns
        (λ m'. map_get m' j ≡ (if is_same (m.compare_with k j) then v else map_get m j))
        (map_set m k v)
unfolding map_get map_set
map_get-map_set m j k v eqv ne =
    let given : (k == null) ≡ false = ground (arith, ne) in
    rw given (returns (get_from-set_in m.compare_with eqv m.tuples j k v))

-- The keys of a list of tuples.
abbrev pub keys : List Tuple → List Word
keys [] = []
keys (t ∷ ts) = t.key ∷ keys ts

abbrev pub values : List Tuple → List Word
values [] = []
values (t ∷ ts) = t.value ∷ values ts

-- No key compares equal to a later one.
abbrev pub Absent : Compare → Word → List Tuple → Type 0
Absent cmp k [] = Unit
Absent cmp k (t ∷ ts) = (is_same (cmp t.key k) ≡ false) × Absent cmp k ts

abbrev pub IsUnique : Compare → List Tuple → Type 0
IsUnique cmp [] = Unit
IsUnique cmp (t ∷ ts) = Absent cmp t.key ts × IsUnique cmp ts

Absent-set_in :
    (cmp : Compare) (ts : List Tuple) (j k v : Word)
    → Absent cmp j ts
    → is_same (cmp k j) ≡ false
    → Absent cmp j (set_in cmp ts k v)
unfolding set_in
Absent-set_in cmp [] j k v h e = (e, tt)
Absent-set_in cmp (t ∷ ts) j k v (a, h) e = elim (Bool-cases (is_same (cmp t.key k))) [
  | inl hit ↦ rw hit (a, h)
  | inr miss ↦ rw miss (a, Absent-set_in cmp ts j k v h e)
]

set_in-IsUnique :
    (cmp : Compare) (eqv : IsEquivalence cmp) (ts : List Tuple) (k v : Word)
    → IsUnique cmp ts
    → IsUnique cmp (set_in cmp ts k v)
unfolding set_in
set_in-IsUnique cmp eqv [] k v u = (tt, tt)
set_in-IsUnique cmp eqv (t ∷ ts) k v (a, u) = elim (Bool-cases (is_same (cmp t.key k))) [
  | inl hit ↦ rw hit (a, u)
  | inr miss ↦ rw miss (
    Absent-set_in cmp ts t.key k v a (ground (arith, eqv.same_sym k t.key)),
    set_in-IsUnique cmp eqv ts k v u,
  )
]

-- Whether some key compares equal.
abbrev pub has_key : Compare → List Tuple → Word → Bool
has_key cmp [] k = false
has_key cmp (t ∷ ts) k = is_same (cmp t.key k) || has_key cmp ts k

length-set_in :
    (cmp : Compare) (ts : List Tuple) (k v : Word)
    → length (set_in cmp ts k v) ≡ length ts + (if has_key cmp ts k then 0 else 1)
unfolding set_in
length-set_in cmp [] k v = refl
length-set_in cmp (t ∷ ts) k v = ground (arith, length-set_in cmp ts k v)

-- If the comparison of a map is an equivalence and the key is not NULL, then `snow_map_set` keeps the
-- keys distinct and the comparison, and adds a tuple only if no key compared equal.
pub map_set-IsUnique :
    (m : SnMap) (k v : Word)
    → IsEquivalence m.compare_with
    → k ≢ null
    → IsUnique m.compare_with m.tuples
    → Returns
        (λ m'.
          IsUnique m.compare_with m'.tuples
          × (m'.compare_with ≡ m.compare_with)
          × (length m'.tuples
              ≡ length m.tuples + (if has_key m.compare_with m.tuples k then 0 else 1)))
        (map_set m k v)
unfolding map_set
map_set-IsUnique m k v eqv ne u =
    let given : (k == null) ≡ false = ground (arith, ne) in
    rw given (
      returns (
        set_in-IsUnique m.compare_with eqv m.tuples k v u,
        refl,
        length-set_in m.compare_with m.tuples k v,
      ))
