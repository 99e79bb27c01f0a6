-- ===== src/Number/Arithmetic.antt =====
-- What the functions of numbers compute: on integers up to the 63 bits of a VALUE, else on floats.
use snow.Base.{
  Bool, Returns, [], arith, false, neg_part, pos, pos_part, true, ℕ, ℤ, ◌%◌, ◌&&◌, ◌*ℤ◌, ◌+ℤ◌, ◌+◌,
  ◌-ℤ◌, ◌<◌, ◌^◌, ◌↔◌, ◌∷◌, ◌≡◌, ◌≤◌,
}
use snow.Value.{
  Word, float_to_value, int_to_value, is_boolean, is_float, is_integer, is_numeric, is_true,
  value_to_float, value_to_int,
}
use snow.Number.{
  Floats, numeric_greater_than, numeric_less_than, numeric_minus, numeric_multiply, numeric_plus,
  numeric_power,
}

int_to_value-is_numeric : (n : ℤ) → is_numeric (int_to_value n) ≡ true
unfolding is_numeric is_integer int_to_value is_float
int_to_value-is_numeric n = ground arith

float_to_value-is_numeric : (f : ℕ) → is_numeric (float_to_value f) ≡ true
unfolding is_numeric is_integer float_to_value is_float
float_to_value-is_numeric f = ground arith

-- The VALUE of an integer, which keeps 63 bits of it.
pub record HasInteger (r : Word) (n : ℤ) : Type 0 where
  pub tagged_int : is_integer r ≡ true
  pub least : neg_part (value_to_int r) ≤ 2 ^ 62
  pub greatest : pos_part (value_to_int r) < 2 ^ 62
  pub congruent :
      (pos_part (value_to_int r) + neg_part n) % 2 ^ 63
      ≡ (pos_part n + neg_part (value_to_int r)) % 2 ^ 63

-- The VALUE of the bits of a float.
pub record HasFloat (r : Word) (f : ℕ) : Type 0 where
  pub tagged_float : is_float r ≡ true
  pub bits : value_to_float r ≡ f % 2 ^ 32

-- A number as a float: an integer is converted.
pub data Operand (C : Floats) (v : Word) : ℕ → Type 0 where
  converted : is_integer v ≡ true → Operand C v (C.of_int (value_to_int v))
  unchanged : is_float v ≡ true → Operand C v (value_to_float v)

-- Two integers give an integer; if one number is a float, two floats give a float.
pub data Computed (C : Floats) (ints : ℤ → ℤ → ℤ) (floats : ℕ → ℕ → ℕ) (x y r : Word) : Type 0 where
  computed_ints :
      is_integer x ≡ true
      → is_integer y ≡ true
      → HasInteger r (ints (value_to_int x) (value_to_int y))
      → Computed C ints floats x y r
  computed_floats :
      (f g : ℕ)
      → (is_integer x && is_integer y) ≡ false
      → Operand C x f
      → Operand C y g
      → HasFloat r (floats f g)
      → Computed C ints floats x y r

-- The sign of one number changed.
pub data Negated (C : Floats) (x r : Word) : Type 0 where
  negated_int : is_integer x ≡ true → HasInteger r (pos 0 -ℤ value_to_int x) → Negated C x r
  negated_float : is_float x ≡ true → HasFloat r (C.negate (value_to_float x)) → Negated C x r

abbrev pub IsBelow : ℤ → ℤ → Type 0
IsBelow a b = pos_part a + neg_part b < pos_part b + neg_part a

-- True or false, by the order of two integers, else by a comparison of floats.
pub data Compared (C : Floats) (order : ℤ → ℤ → Type 0) (floats : ℕ → ℕ → Bool) (x y r : Word)
    : Type 0 where
  compared_ints :
      is_integer x ≡ true
      → is_integer y ≡ true
      → is_boolean r ≡ true
      → ((is_true r ≡ true) ↔ order (value_to_int x) (value_to_int y))
      → Compared C order floats x y r
  compared_floats :
      (f g : ℕ)
      → (is_integer x && is_integer y) ≡ false
      → Operand C x f
      → Operand C y g
      → is_boolean r ≡ true
      → is_true r ≡ floats f g
      → Compared C order floats x y r

-- What the functions that never divide return for two numbers.
abbrev pub Arithmetic : Floats → Word → Word → Type 0
Arithmetic C x y =
    Returns (Computed C (λ a b. a +ℤ b) C.add_f x y) (numeric_plus C x (y ∷ []))
    × Returns (Computed C (λ a b. a -ℤ b) C.sub_f x y) (numeric_minus C x (y ∷ []))
    × Returns (Negated C x) (numeric_minus C x [])
    × Returns (Computed C (λ a b. a *ℤ b) C.mul_f x y) (numeric_multiply C x (y ∷ []))
    × Returns (Computed C C.int_pow C.powf x y) (numeric_power C x (y ∷ []))
    × Returns (Compared C IsBelow C.less x y) (numeric_less_than C x (y ∷ []))
    × Returns (Compared C (λ a b. IsBelow b a) C.greater x y) (numeric_greater_than C x (y ∷ []))
