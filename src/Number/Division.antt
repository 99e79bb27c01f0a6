-- ===== src/Number/Division.antt =====
-- Division and remainder of integers.
use snow.Base.{
  Bool, Returns, [], arith, false, negsuc, not, ok, pos, refl, returns, suc, true, zero, ℕ, ℤ, ◌%◌,
  ◌*ℤ◌, ◌*◌, ◌+ℤ◌, ◌+◌, ◌/◌, ◌<◌, ◌==◌, ◌^◌, ◌∷◌, ◌≡◌, ◌≢◌, ◌≤◌,
}
use native.Mathlib.Omega.{div_any}
use native.Mathlib.Nat.{div-le_self, mod-le, mod-lt}
use snow.Number.{
  Floats, is_below_zero, magnitude, numeric_divide, numeric_modulo, quotient, remainder, same_sign,
  with_sign,
}
use snow.Value.{Word, int_to_value, is_integer, is_numeric, sign_bit, value_to_int, word_mod}
use snow.Value.Ints.{value_to_int-int_to_value}

both_positive :
    (k r m n : ℕ) → n * k + r ≡ m → with_sign false k *ℤ pos n +ℤ with_sign false r ≡ pos m
unfolding ◌*ℤ◌ ◌+ℤ◌
both_positive k r m n e = ground arith

over_negative :
    (k r m n : ℕ) → suc n * k + r ≡ m → with_sign true k *ℤ negsuc n +ℤ with_sign false r ≡ pos m
unfolding ◌*ℤ◌ ◌+ℤ◌
over_negative zero r m n e = ground arith
over_negative (suc k) r m n e = ground arith

under_negative :
    (k r m n : ℕ) → n * k + r ≡ suc m → with_sign true k *ℤ pos n +ℤ with_sign true r ≡ negsuc m
unfolding ◌*ℤ◌ ◌+ℤ◌
under_negative zero zero m n e = ground arith
under_negative zero (suc r) m n e = ground arith
under_negative (suc k) zero m n e = ground arith
under_negative (suc k) (suc r) m n e = ground arith

both_negative :
    (k r m n : ℕ)
    → suc n * k + r ≡ suc m
    → with_sign false k *ℤ negsuc n +ℤ with_sign true r ≡ negsuc m
unfolding ◌*ℤ◌ ◌+ℤ◌
both_negative k zero m n e = ground arith
both_negative k (suc r) m n e = ground arith

-- Dividing, multiplying back and adding the remainder.
division :
    (a b : ℤ)
    → with_sign (not (same_sign a b)) (magnitude a / magnitude b) *ℤ b
        +ℤ with_sign (is_below_zero a) (magnitude a % magnitude b)
      ≡ a
division (pos m) (pos n) = both_positive (m / n) (m % n) m n (div_any m n)
division (pos m) (negsuc n) = over_negative (m / suc n) (m % suc n) m n (div_any m (suc n))
division (negsuc m) (pos n) = under_negative (suc m / n) (suc m % n) m n (div_any (suc m) n)
division (negsuc m) (negsuc n) =
    both_negative (suc m / suc n) (suc m % suc n) m n (div_any (suc m) (suc n))

numeric_divide_ints :
    (C : Floats) (x y : Word)
    → is_integer x ≡ true
    → is_integer y ≡ true
    → (magnitude (value_to_int y) == 0) ≡ false
    → let a = value_to_int x in
      let b = value_to_int y in
      (numeric_divide C x (y ∷ [])
        ≡ ok (int_to_value (with_sign (not (same_sign a b)) (magnitude a / magnitude b))))
      × (numeric_modulo C x (y ∷ [])
          ≡ ok (int_to_value (with_sign (is_below_zero a) (magnitude a % magnitude b))))
unfolding numeric_divide numeric_modulo is_numeric quotient remainder
numeric_divide_ints C x y p q z = (rw (p, q, z) refl, rw (p, q, z) refl)

with_sign-value :
    (b : Bool) (n : ℕ) → n < 2 ^ 62 → value_to_int (int_to_value (with_sign b n)) ≡ with_sign b n
with_sign-value false n h = value_to_int-int_to_value (pos n) (omega arith) (omega arith)
with_sign-value true zero h = value_to_int-int_to_value (pos 0) (omega arith) (omega arith)
with_sign-value true (suc n) h = value_to_int-int_to_value (negsuc n) (omega arith) (omega arith)

-- Behind a word that is an integer stands a number of at most 2^62.
value_range : (x : Word) → x < word_mod → is_integer x ≡ true → magnitude (value_to_int x) ≤ 2 ^ 62
unfolding value_to_int is_integer
value_range x h p = ground arith

magnitude_bound :
    (x : Word)
    → x < word_mod
    → is_integer x ≡ true
    → x ≢ sign_bit + 1
    → magnitude (value_to_int x) < 2 ^ 62
unfolding value_to_int is_integer
magnitude_bound x h p e = ground arith

magnitude_zero :
    (y : Word)
    → y < word_mod
    → is_integer y ≡ true
    → y ≢ 1
    → (magnitude (value_to_int y) == 0) ≡ false
unfolding value_to_int is_integer
magnitude_zero y h p e = ground arith

magnitude-with_sign : (b : Bool) (n : ℕ) → magnitude (with_sign b n) ≡ n
magnitude-with_sign false n = refl
magnitude-with_sign true zero = refl
magnitude-with_sign true (suc n) = refl

-- A quotient d and a remainder m of x by y.
abbrev pub Divided : Word → Word → Word → Word → Type 0
Divided x y d m =
    (value_to_int d *ℤ value_to_int y +ℤ value_to_int m ≡ value_to_int x)
    × (magnitude (value_to_int m) < magnitude (value_to_int y))

-- For integers x and y, y not zero and x not the least integer, `/` and `%` return a quotient q and a
-- remainder r with q * y + r = x and a remainder smaller than y in magnitude; no bit is lost.
pub numeric_divide-numeric_modulo :
    (C : Floats) (x y : Word)
    → x < word_mod
    → y < word_mod
    → is_integer x ≡ true
    → is_integer y ≡ true
    → y ≢ 1
    → x ≢ sign_bit + 1
    → Returns
        (λ d. Returns (Divided x y d) (numeric_modulo C x (y ∷ [])))
        (numeric_divide C x (y ∷ []))
numeric_divide-numeric_modulo C x y h k p q z c =
    let a = value_to_int x in
    let b = value_to_int y in
    let small = magnitude_bound x h p c in
    let nonzero = magnitude_zero y k q z in
    let e = numeric_divide_ints C x y p q nonzero in
    let positive : 0 < magnitude b = ground (arith, nonzero) in
    let below : magnitude a % magnitude b < magnitude b = mod-lt (magnitude a) positive in
    let at_most : magnitude a / magnitude b ≤ magnitude a =
      div-le_self (magnitude a) (magnitude b) in
    let less : magnitude a % magnitude b ≤ magnitude a = mod-le (magnitude a) (magnitude b) in
    let v = with_sign-value (not (same_sign a b)) (magnitude a / magnitude b) (omega arith) in
    let w = with_sign-value (is_below_zero a) (magnitude a % magnitude b) (omega arith) in
    rw (e.0, e.1) (returns (returns (rw (v, w) (division a b, rw magnitude-with_sign below))))
