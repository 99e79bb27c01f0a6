-- ===== src/Value/Tags.antt =====
-- Which words `snow_typeof` knows, and as what.
use snow.Base.{
  Bool, arith, false, if◌then◌else◌, ok, trap, true, ℕ, ℤ, ◌%◌, ◌+◌, ◌↔◌, ◌≡◌, ◌≤◌, ◌⊎◌,
}
use snow.Value.{
  ObjectType, Word, boolean_to_value, boolean_type, eval_truth, float_to_value, float_type,
  int_to_value, integer_type, is_boolean, is_false, is_float, is_integer, is_nil, is_object,
  is_symbol, nil_type, sn_nil, symbol_to_value, symbol_type, typeof,
}

-- The words that no constructor builds: an unused tag, or a constant's tag with more bits.
abbrev pub Malformed : Word → Type 0
Malformed v = (v % 16 ≡ 8) ⊎ (v % 16 ≡ 12) ⊎ (16 ≤ v) × ((v % 16 ≡ 2) ⊎ (v % 16 ≡ 4) ⊎ (v % 16 ≡ 6))

module _ (type_at : Word → ObjectType) where
  -- What the constructors of immediates build has the type that was meant, whatever is in memory.
  pub typeof_immediates :
      (n : ℤ) (b : Bool) (s f : ℕ)
      → (typeof type_at (int_to_value n) ≡ ok integer_type)
        × (typeof type_at (boolean_to_value b) ≡ ok boolean_type)
        × (typeof type_at (symbol_to_value s) ≡ ok symbol_type)
        × (typeof type_at (float_to_value f) ≡ ok float_type)
        × (typeof type_at sn_nil ≡ ok nil_type)
  unfolding typeof int_to_value boolean_to_value symbol_to_value float_to_value
  typeof_immediates n b s f = ground arith

  -- `snow_typeof` traps at the malformed words and at no other, whatever is in memory.
  pub typeof_trap : (v : Word) → (typeof type_at v ≡ trap) ↔ Malformed v
  unfolding typeof
  typeof_trap v = (λ h. ground arith, λ h. ground arith)

abbrev pub one_if : Bool → ℕ
one_if b = if b then 1 else 0

-- No word has two tags, and `eval_truth` is false of NULL, nil and false only.
pub tags_disjoint :
    (v : Word)
    → (one_if (is_integer v)
          + one_if (is_object v)
          + one_if (is_symbol v)
          + one_if (is_float v)
          + one_if (is_boolean v)
          + one_if (is_nil v)
        ≤ 1)
      × (eval_truth v ≡ false ↔ (v ≡ 0) ⊎ (is_nil v ≡ true) ⊎ (is_false v ≡ true))
unfolding is_integer is_object is_symbol is_float is_boolean is_nil is_false eval_truth
tags_disjoint v = (ground arith, (λ h. ground arith, λ h. ground arith))
