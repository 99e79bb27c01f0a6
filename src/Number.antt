-- ===== src/Number.antt =====
-- snow/numeric.c: the arithmetic and the comparisons of integers and floats. An `intx` wraps at 64 bits,
-- and its VALUE at 63. The arithmetic of the C types `float` and `double` is a parameter on bit patterns.
-- A division by zero of integers kills the program, as an access out of place does.
pub mod Sums
pub mod Order
pub mod Division
pub mod Arithmetic
mod Tests
use snow.Base.{
  Bool, List, Result, [], assert, false, fault, if◌then◌else◌, ltb_ℤ, negsuc, not, ok, pos, suc,
  true, zero, ℕ, ℤ, ◌%◌, ◌&&◌, ◌*ℤ◌, ◌+ℤ◌, ◌-ℤ◌, ◌/◌, ◌==◌, ◌>>=◌, ◌>>◌, ◌∷◌,
}
use snow.ArrayObject.{arg, require_args}
use snow.Value.{
  Word, boolean_to_value, float_to_value, int_to_value, is_integer, is_numeric, to_intx, to_word,
  value_to_float, value_to_int,
}

-- What the functions use of `float`: the operators, `(float)` of an integer, `fmodf`, `powf`, and
-- `(intx)pow((double)a, (double)b)`.
pub record Floats : Type 0 where
  pub of_int : ℤ → ℕ
  pub add_f : ℕ → ℕ → ℕ
  pub sub_f : ℕ → ℕ → ℕ
  pub mul_f : ℕ → ℕ → ℕ
  pub div_f : ℕ → ℕ → ℕ
  pub fmodf : ℕ → ℕ → ℕ
  pub powf : ℕ → ℕ → ℕ
  pub negate : ℕ → ℕ
  pub less : ℕ → ℕ → Bool
  pub greater : ℕ → ℕ → Bool
  pub int_pow : ℤ → ℤ → ℤ

-- An integer in an `intx`.
abbrev pub wrapped : ℤ → ℤ
wrapped n = to_intx (to_word n)

abbrev pub magnitude : ℤ → ℕ
magnitude (pos n) = n
magnitude (negsuc n) = suc n

-- The integer with a magnitude that is negative or not.
abbrev pub with_sign : Bool → ℕ → ℤ
with_sign false n = pos n
with_sign true zero = pos 0
with_sign true (suc n) = negsuc n

abbrev pub is_below_zero : ℤ → Bool
is_below_zero (pos n) = false
is_below_zero (negsuc n) = true

abbrev pub same_sign : ℤ → ℤ → Bool
same_sign a b = if is_below_zero a then is_below_zero b else not (is_below_zero b)

-- `a / b` and `a % b` of C, which round towards zero
unfoldable pub quotient : ℤ → ℤ → Result ℤ
quotient a b =
    if magnitude b == 0
    then fault
    else ok (with_sign (not (same_sign a b)) (magnitude a / magnitude b))

unfoldable pub remainder : ℤ → ℤ → Result ℤ
remainder a b =
    if magnitude b == 0 then fault else ok (with_sign (is_below_zero a) (magnitude a % magnitude b))

-- `SELF` and `ARGS[0]` after the three checks that the functions of two numbers begin with
abbrev pub with_numbers {ℓ} : {A : Type ℓ} → Word → List Word → (Word → Result A) → Result A
with_numbers self args rest = do
  assert (is_numeric self)
  require_args 1 args
  assert (is_numeric (arg args 0))
  rest (arg args 0)

module _ (C : Floats) where
  -- `is_integer(v) ? (float)value_to_int(v) : value_to_float(v)`
  abbrev pub as_float : Word → ℕ
  as_float v = if is_integer v then C.of_int (value_to_int v) else value_to_float v

  -- The rest of a function for operators on integers and on floats.
  abbrev pub calculate : (ℤ → ℤ → Result ℤ) → (ℕ → ℕ → ℕ) → Word → Word → Result Word
  calculate ints floats v w =
      if is_integer v && is_integer w
      then (do n ← ints (value_to_int v) (value_to_int w); ok (int_to_value n))
      else ok (float_to_value (floats (as_float v) (as_float w)))

  abbrev pub decide_order : (ℤ → ℤ → Bool) → (ℕ → ℕ → Bool) → Word → Word → Result Word
  decide_order ints floats v w = ok (
      boolean_to_value (
        if is_integer v && is_integer w
        then ints (value_to_int v) (value_to_int w)
        else floats (as_float v) (as_float w)))

  unfoldable pub numeric_plus : Word → List Word → Result Word
  numeric_plus self args =
      with_numbers self args (λ w. calculate (λ a b. ok (wrapped (a +ℤ b))) C.add_f self w)

  -- Without an argument the sign changes.
  unfoldable pub numeric_minus : Word → List Word → Result Word
  numeric_minus self [] = do
    assert (is_numeric self)
    if is_integer self
        then ok (int_to_value (pos 0 -ℤ value_to_int self))
        else ok (float_to_value (C.negate (value_to_float self)))
  numeric_minus self (w ∷ args) = do
    assert (is_numeric self)
    assert (is_numeric w)
    calculate (λ a b. ok (wrapped (a -ℤ b))) C.sub_f self w

  unfoldable pub numeric_multiply : Word → List Word → Result Word
  numeric_multiply self args =
      with_numbers self args (λ w. calculate (λ a b. ok (wrapped (a *ℤ b))) C.mul_f self w)

  unfoldable pub numeric_divide : Word → List Word → Result Word
  numeric_divide self args = with_numbers self args (λ w. calculate quotient C.div_f self w)

  unfoldable pub numeric_modulo : Word → List Word → Result Word
  numeric_modulo self args = with_numbers self args (λ w. calculate remainder C.fmodf self w)

  unfoldable pub numeric_power : Word → List Word → Result Word
  numeric_power self args =
      with_numbers self args (λ w. calculate (λ a b. ok (C.int_pow a b)) C.powf self w)

  unfoldable pub numeric_less_than : Word → List Word → Result Word
  numeric_less_than self args = with_numbers self args (λ w. decide_order ltb_ℤ C.less self w)

  unfoldable pub numeric_greater_than : Word → List Word → Result Word
  numeric_greater_than self args =
      with_numbers self args (λ w. decide_order (λ a b. ltb_ℤ b a) C.greater self w)
