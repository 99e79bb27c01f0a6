-- ===== src/Map/Keys.antt =====
-- Which keys the default comparison takes for the same, and the listing of keys and values.
use snow.Map.{
  SnMap, Tuple, is_same, map_compare_default, map_get, map_keys, map_set, map_values, push_keys,
  push_values,
}
use snow.Array.{Array, u32_mod}
use snow.Array.Growth.{array_push-append}
use snow.Array.Holds.{Holds, array_init-Holds}
use snow.Base.{
  List, Returns, Returns-bind, Returns-mono, [], ap, append-nil, append_assoc, arith, if◌then◌else◌,
  length, length-append, pos, refl, returns, sym, true, ℕ, ◌%◌, ◌++◌, ◌+◌, ◌<◌, ◌^◌, ◌↔◌, ◌∙◌, ◌∷◌,
  ◌≡◌,
}
use snow.Map.Laws.{IsEquivalence, keys, map_get-map_set, values}
use snow.Value.{Word, int_to_value, symbol_to_value}

-- The default comparison takes two words for the same key exactly if they agree in the low 32 bits.
pub map_compare_default-same :
    (a b : Word) → (is_same (map_compare_default a b) ≡ true) ↔ (a % 2 ^ 32 ≡ b % 2 ^ 32)
unfolding map_compare_default
map_compare_default-same a b = (λ h. ground arith, λ h. ground arith)

-- The default comparison tells an equivalence of keys.
pub default-IsEquivalence : IsEquivalence map_compare_default
default-IsEquivalence = record {
  same_refl = λ a. (map_compare_default-same a a).1 refl;
  same_sym = λ a b h. (map_compare_default-same b a).1 (sym ((map_compare_default-same a b).0 h));
  same_trans = λ a b c h k.
      (map_compare_default-same a c).1
        ((map_compare_default-same a b).0 h ∙ (map_compare_default-same b c).0 k);
}

-- In a map with the default comparison a written key is read back under every key that agrees with it
-- in the low 32 bits: integers that are 2^31 apart share their entry.
pub integers_collide :
    (ts : List Tuple) (n : ℕ) (v : Word)
    → n < 2 ^ 61
    → Returns
        (λ m. map_get m (int_to_value (pos (n + 2 ^ 31))) ≡ v)
        (map_set
          (record { tuples = ts; compare_with = map_compare_default })
          (int_to_value (pos n))
          v)
unfolding int_to_value
integers_collide ts n v h =
    let k = int_to_value (pos n) in
    let j = int_to_value (pos (n + 2 ^ 31)) in
    let same : is_same (map_compare_default k j) ≡ true =
      (map_compare_default-same k j).1 (omega arith) in
    let m : SnMap = record { tuples = ts; compare_with = map_compare_default } in
    Returns-mono (map_get-map_set m j k v default-IsEquivalence (omega arith))
      λ m' e. e ∙ ap (λ b. if b then v else map_get m j) same

-- Symbols below 2^28 do not collide.
pub symbols_apart :
    (s t : ℕ)
    → s < 2 ^ 28
    → t < 2 ^ 28
    → is_same (map_compare_default (symbol_to_value s) (symbol_to_value t)) ≡ true
    → s ≡ t
unfolding symbol_to_value
symbols_apart s t hs ht h =
    let e = (map_compare_default-same (symbol_to_value s) (symbol_to_value t)).0 h in
    omega (arith, e)

push_keys-append :
    (ts : List Tuple) {a : Array} {xs : List Word}
    → Holds a xs
    → length xs + length ts < u32_mod
    → Returns (λ b. Holds b (xs ++ keys ts)) (push_keys a ts)
unfolding push_keys
push_keys-append [] {xs} h small = returns (rw append-nil h)
push_keys-append (t ∷ ts) {xs} h small =
    Returns-bind (array_push-append t.key h (omega arith)) λ (w, b) p.
      rw (← append_assoc xs (t.key ∷ []) (keys ts))
        (push_keys-append ts (p.1) (omega (arith, length-append xs (t.key ∷ []))))

push_values-append :
    (ts : List Tuple) {a : Array} {xs : List Word}
    → Holds a xs
    → length xs + length ts < u32_mod
    → Returns (λ b. Holds b (xs ++ values ts)) (push_values a ts)
unfolding push_values
push_values-append [] {xs} h small = returns (rw append-nil h)
push_values-append (t ∷ ts) {xs} h small =
    Returns-bind (array_push-append t.value h (omega arith)) λ (w, b) p.
      rw (← append_assoc xs (t.value ∷ []) (values ts))
        (push_values-append ts (p.1) (omega (arith, length-append xs (t.value ∷ []))))

-- On a map of fewer than 2^32 tuples `map_keys` and `map_values` list the keys and the values in one
-- order, each once a tuple.
pub map_keys-keys :
    (m : SnMap)
    → length m.tuples < u32_mod
    → Returns (λ b. Holds b (keys m.tuples)) (map_keys m)
      × Returns (λ b. Holds b (values m.tuples)) (map_values m)
unfolding map_keys map_values
map_keys-keys m small = (
  push_keys-append m.tuples array_init-Holds (omega arith),
  push_values-append m.tuples array_init-Holds (omega arith),
)
