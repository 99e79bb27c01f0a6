-- ===== src/Number/Order.antt =====
-- The comparisons of integers, and division.
use snow.Base.{
  Bool, [], ap, arith, inl, inr, ltb_ℤ, ok, refl, sym, true, ℤ, ◌<◌, ◌↔◌, ◌∙◌, ◌∷◌, ◌≡◌, ◌⊎◌,
}
use snow.Number.{Floats, numeric_greater_than, numeric_less_than}
use snow.Value.{
  Word, boolean_to_value, int_to_value, is_integer, is_numeric, sn_true, value_to_int, word_mod,
}
use snow.Value.Ints.{int_to_value-value_to_int}

-- The order of the integers behind two words.
abbrev pub Ordered : Floats → Word → Word → Type 0
Ordered C x y =
    (numeric_less_than C x (y ∷ []) ≡ numeric_greater_than C y (x ∷ []))
    × ((numeric_less_than C x (y ∷ []) ≡ ok sn_true)
        ⊎ (x ≡ y)
        ⊎ (numeric_greater_than C x (y ∷ []) ≡ ok sn_true))
    × ¬ (
        (numeric_less_than C x (y ∷ []) ≡ ok sn_true)
        × (numeric_greater_than C x (y ∷ []) ≡ ok sn_true))

numeric_less_than_ints :
    (C : Floats) (x y : Word)
    → is_integer x ≡ true
    → is_integer y ≡ true
    → numeric_less_than C x (y ∷ [])
      ≡ ok (boolean_to_value (ltb_ℤ (value_to_int x) (value_to_int y)))
unfolding numeric_less_than is_numeric
numeric_less_than_ints C x y p q = rw (p, q) refl

numeric_greater_than_ints :
    (C : Floats) (x y : Word)
    → is_integer x ≡ true
    → is_integer y ≡ true
    → numeric_greater_than C x (y ∷ [])
      ≡ ok (boolean_to_value (ltb_ℤ (value_to_int y) (value_to_int x)))
unfolding numeric_greater_than is_numeric
numeric_greater_than_ints C x y p q = rw (p, q) refl

value_to_int-injective :
    (x y : Word)
    → x < word_mod
    → y < word_mod
    → is_integer x ≡ true
    → is_integer y ≡ true
    → value_to_int x ≡ value_to_int y
    → x ≡ y
value_to_int-injective x y h k p q e =
    sym (int_to_value-value_to_int x h p) ∙ ap int_to_value e ∙ int_to_value-value_to_int y k q

ℤ_cases : (a b : ℤ) → (ltb_ℤ a b ≡ true) ⊎ (a ≡ b) ⊎ (ltb_ℤ b a ≡ true)
ℤ_cases a b = ground arith

ltb_ℤ-asymmetric : (a b : ℤ) → ¬ ((ltb_ℤ a b ≡ true) × (ltb_ℤ b a ≡ true))
ltb_ℤ-asymmetric a b = ground arith

truth : (b : Bool) → (ok (boolean_to_value b) ≡ ok sn_true) ↔ (b ≡ true)
unfolding boolean_to_value
truth b = ground arith

-- Two words that are integers are related in exactly one of three ways: `<` holds, they are the same
-- word, or `>` holds; and `<` one way is `>` the other way.
pub numeric_less_than-Ordered :
    (C : Floats) (x y : Word)
    → x < word_mod
    → y < word_mod
    → is_integer x ≡ true
    → is_integer y ≡ true
    → Ordered C x y
numeric_less_than-Ordered C x y h k p q =
    let a = value_to_int x in
    let b = value_to_int y in
    rw
      (
        numeric_less_than_ints C x y p q,
        numeric_greater_than_ints C x y p q,
        numeric_greater_than_ints C y x q p,
      )
      (
        refl,
        elim (ℤ_cases a b) [
          | inl l ↦ inl ((truth (ltb_ℤ a b)).1 l)
          | inr (inl e) ↦ inr (inl (value_to_int-injective x y h k p q e))
          | inr (inr g) ↦ inr (inr ((truth (ltb_ℤ b a)).1 g))
        ],
        λ (l, g). ltb_ℤ-asymmetric a b ((truth (ltb_ℤ a b)).0 l, (truth (ltb_ℤ b a)).0 g),
      )
