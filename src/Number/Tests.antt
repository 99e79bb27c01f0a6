-- ===== src/Number/Tests.antt =====
-- Tests of the numbers.
use snow.Base.{
  Returns, [], arith, ltb, negsuc, ok, pos, pos_part, refl, ◌%◌, ◌*◌, ◌+◌, ◌-◌, ◌/◌, ◌^◌, ◌∷◌, ◌≡◌,
}
use snow.Number.{Floats, numeric_divide, numeric_modulo, quotient, remainder}
use snow.Number.Division.{Divided, numeric_divide-numeric_modulo}
use snow.Number.Arithmetic.{Arithmetic}
use snow.Value.{Word, int_to_value, is_integer, is_numeric, value_to_int}

-- Floats that are integers, cut off below zero.
abbrev whole_floats : Floats
whole_floats = record {
  of_int = λ n. pos_part n;
  add_f = λ a b. a + b;
  sub_f = λ a b. a - b;
  mul_f = λ a b. a * b;
  div_f = λ a b. a / b;
  fmodf = λ a b. a % b;
  powf = λ a b. a ^ b;
  negate = λ a. 0;
  less = ltb;
  greater = λ a b. ltb b a;
  int_pow = λ a b. pos (pos_part a ^ pos_part b);
}

-- 2^62 - 1
abbrev greatest : Word
greatest = 2 ^ 63 - 1

-- -7 and 2
abbrev minus_seven : Word
minus_seven = 2 ^ 64 - 13

numeric_divide-numeric_modulo_example :
    Returns
      (λ d. Returns (Divided minus_seven 5 d) (numeric_modulo whole_floats minus_seven (5 ∷ [])))
      (numeric_divide whole_floats minus_seven (5 ∷ []))
unfolding is_integer
numeric_divide-numeric_modulo_example =
    numeric_divide-numeric_modulo whole_floats minus_seven 5 (omega arith) (omega arith) refl refl
      (omega arith) (omega arith)

-- -7 / 2 is -3, and -7 % 2 is -1.
divide_negative : numeric_divide whole_floats minus_seven (5 ∷ []) ≡ ok (int_to_value (negsuc 2))
unfolding numeric_divide is_numeric is_integer value_to_int int_to_value quotient
divide_negative = refl

modulo_negative : numeric_modulo whole_floats minus_seven (5 ∷ []) ≡ ok (int_to_value (negsuc 0))
unfolding numeric_modulo is_numeric is_integer value_to_int int_to_value remainder
modulo_negative = refl
