-- ===== src/Map/Tests.antt =====
-- Tests of the maps.
use snow.Base.{Returns, [], arith, false, if◌then◌else◌, refl, true, ◌%◌, ◌+◌, ◌^◌, ◌↔◌, ◌∷◌, ◌≡◌}
use snow.Map.{SnMap, is_same, map_compare_default, map_get, map_set, tuple}
use snow.Map.Keys.{default-IsEquivalence, map_compare_default-same}
use snow.Map.Laws.{map_get-map_set}

abbrev two_keys : SnMap
two_keys = record { tuples = tuple 3 100 ∷ tuple 5 200 ∷ []; compare_with = map_compare_default }

keys_apart : is_same (map_compare_default 3 5) ≡ false
unfolding map_compare_default
keys_apart = refl

map_get-map_set_example :
    Returns
      (λ m. map_get m 5 ≡ (if is_same (map_compare_default 5 5) then 300 else map_get two_keys 5))
      (map_set two_keys 5 300)
map_get-map_set_example = map_get-map_set two_keys 5 5 300 default-IsEquivalence (omega arith)

map_compare_default-same_example :
    (is_same (map_compare_default 1 (1 + 2 ^ 32)) ≡ true) ↔ (1 % 2 ^ 32 ≡ (1 + 2 ^ 32) % 2 ^ 32)
map_compare_default-same_example = map_compare_default-same 1 (1 + 2 ^ 32)
