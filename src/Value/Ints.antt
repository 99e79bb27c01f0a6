-- ===== src/Value/Ints.antt =====
-- The immediates of snow/intern.h carry what was put into them.
use snow.Base.{arith, negsuc, pos, true, ℕ, ℤ, ◌-◌, ◌<◌, ◌^◌, ◌≡◌, ◌≤ℤ◌, ◌≤◌}
use snow.Value.{
  Word, float_to_value, int_to_value, is_integer, symbol_to_value, value_to_float, value_to_int,
  value_to_symbol, word_mod,
}

-- An integer from -2^62 to 2^62 - 1 is read back from its VALUE.
pub value_to_int-int_to_value :
    (n : ℤ) → negsuc (2 ^ 62 - 1) ≤ℤ n → n ≤ℤ pos (2 ^ 62 - 1) → value_to_int (int_to_value n) ≡ n
unfolding value_to_int int_to_value
value_to_int-int_to_value n lo hi = ground arith

-- Every word with the integer tag is the VALUE of the integer read from it.
pub int_to_value-value_to_int :
    (v : Word) → v < word_mod → is_integer v ≡ true → int_to_value (value_to_int v) ≡ v
unfolding value_to_int int_to_value is_integer
int_to_value-value_to_int v h t = ground arith

-- Outside 63 bits the top bit is lost: 2^62 is read back as -2^62.
pub int_to_value_overflow :
    (n : ℕ)
    → 2 ^ 62 ≤ n
    → n < 2 ^ 63
    → value_to_int (int_to_value (pos n)) ≡ negsuc (2 ^ 63 - n - 1)
unfolding value_to_int int_to_value
int_to_value_overflow n lo hi = ground arith

-- A symbol below 2^60 and the bits of a float are read back from their VALUEs.
pub value_to_symbol-symbol_to_value : (s : ℕ) → s < 2 ^ 60 → value_to_symbol (symbol_to_value s) ≡ s
unfolding value_to_symbol symbol_to_value
value_to_symbol-symbol_to_value s h = omega arith

pub value_to_float-float_to_value : (f : ℕ) → f < 2 ^ 32 → value_to_float (float_to_value f) ≡ f
unfolding value_to_float float_to_value
value_to_float-float_to_value f h = omega arith
