-- ===== src/Number/Sums.antt =====
-- Sums and differences of integers, which wrap at 63 bits.
use snow.Base.{
  +ℤ_parts, -ℤ_parts, Returns, [], ap, arith, neg_part, ok, pos_part, refl, returns, true, ℕ, ℤ,
  ◌%◌, ◌*◌, ◌+ℤ◌, ◌+◌, ◌-ℤ◌, ◌-◌, ◌<◌, ◌↔◌, ◌∙◌, ◌∷◌, ◌≡◌, ◌≤◌, ◌⊎◌,
}
use snow.Number.{Floats, numeric_minus, numeric_plus, wrapped}
use snow.Value.{Word, int_to_value, is_integer, is_numeric, sign_bit, value_to_int, word_mod}

numeric_plus_ints :
    (C : Floats) (x y : Word)
    → is_integer x ≡ true
    → is_integer y ≡ true
    → numeric_plus C x (y ∷ []) ≡ ok (int_to_value (wrapped (value_to_int x +ℤ value_to_int y)))
unfolding numeric_plus is_numeric
numeric_plus_ints C x y p q = rw (p, q) refl

numeric_minus_ints :
    (C : Floats) (x y : Word)
    → is_integer x ≡ true
    → is_integer y ≡ true
    → numeric_minus C x (y ∷ []) ≡ ok (int_to_value (wrapped (value_to_int x -ℤ value_to_int y)))
unfolding numeric_minus is_numeric
numeric_minus_ints C x y p q = rw (p, q) refl

one_part : (n : ℤ) → (pos_part n ≡ 0) ⊎ (neg_part n ≡ 0)
one_part n = ground arith

-- The parts of the integer behind a word.
value_parts :
    (x : Word)
    → x < word_mod
    → is_integer x ≡ true
    → let a = value_to_int x in
      ((pos_part a * 2 + 1 ≡ x) × (neg_part a ≡ 0) × (x < sign_bit))
      ⊎ ((pos_part a ≡ 0) × (neg_part a * 2 + x ≡ word_mod + 1) × (sign_bit ≤ x))
unfolding value_to_int is_integer
value_parts x h p = ground arith

-- The word behind an integer that may need one bit more.
wrapped_word :
    (n : ℤ)
    → pos_part n < sign_bit
    → neg_part n ≤ sign_bit
    → int_to_value (wrapped n) ≡ (pos_part n * 2 + word_mod - neg_part n * 2) % word_mod + 1
unfolding int_to_value
wrapped_word n h k = ground arith

sum_word :
    (x y : Word)
    → x < word_mod
    → y < word_mod
    → is_integer x ≡ true
    → is_integer y ≡ true
    → int_to_value (wrapped (value_to_int x +ℤ value_to_int y)) ≡ (x + y - 2) % word_mod + 1
sum_word x y h k p q =
    let n = value_to_int x +ℤ value_to_int y in
    let f = +ℤ_parts (value_to_int x) (value_to_int y) in
    let u = value_parts x h p in
    let v = value_parts y k q in
    wrapped_word n (omega (arith, f, u, v, one_part n)) (omega (arith, f, u, v, one_part n))
    ∙ (omega (arith, f, u, v, one_part n))

difference_word :
    (x y : Word)
    → x < word_mod
    → y < word_mod
    → is_integer x ≡ true
    → is_integer y ≡ true
    → int_to_value (wrapped (value_to_int x -ℤ value_to_int y)) ≡ (x + word_mod - y) % word_mod + 1
difference_word x y h k p q =
    let n = value_to_int x -ℤ value_to_int y in
    let f = -ℤ_parts (value_to_int x) (value_to_int y) in
    let u = value_parts x h p in
    let v = value_parts y k q in
    wrapped_word n (omega (arith, f, u, v, one_part n)) (omega (arith, f, u, v, one_part n))
    ∙ (omega (arith, f, u, v, one_part n))

odd_sum : (x y : ℕ) → x % 2 ≡ 1 → y % 2 ≡ 1 → ((x + y - 2) % word_mod + 1) % 2 ≡ 1
odd_sum x y p q = omega arith

back :
    (x y : ℕ)
    → x < word_mod
    → y < word_mod
    → x % 2 ≡ 1
    → y % 2 ≡ 1
    → ((x + y - 2) % word_mod + 1 + word_mod - y) % word_mod + 1 ≡ x
back x y h k p q = omega arith

is_integer_iff : (x : Word) → (is_integer x ≡ true) ↔ (x % 2 ≡ 1)
unfolding is_integer
is_integer_iff x = ground arith

-- What adding an integer to an integer returns, and what subtracting and adding give from there.
abbrev pub Undone : Floats → Word → Word → Word → Type 0
Undone C x y s =
    (s < word_mod)
    × (is_integer s ≡ true)
    × (numeric_minus C s (y ∷ []) ≡ ok x)
    × (numeric_plus C y (x ∷ []) ≡ ok s)

-- For integers x and y, the sum of them is an integer, also when it has wrapped around; taking y away
-- from it gives x, and the sum of y and x is the same.
pub numeric_minus-numeric_plus :
    (C : Floats) (x y : Word)
    → x < word_mod
    → y < word_mod
    → is_integer x ≡ true
    → is_integer y ≡ true
    → Returns (Undone C x y) (numeric_plus C x (y ∷ []))
numeric_minus-numeric_plus C x y h k p q =
    let s = (x + y - 2) % word_mod + 1 in
    let odd_x = (is_integer_iff x).0 p in
    let odd_y = (is_integer_iff y).0 q in
    let odd = odd_sum x y odd_x odd_y in
    let i = (is_integer_iff s).1 odd in
    let small : s < word_mod = omega arith in
    rw (numeric_plus_ints C x y p q, sum_word x y h k p q)
      (returns (
        small,
        i,
        numeric_minus_ints C s y i q
            ∙ ap ok (difference_word s y small k i q ∙ back x y h k odd_x odd_y),
        numeric_plus_ints C y x q p
            ∙ ap ok (sum_word y x k h q p ∙ ap (λ t. t % word_mod + 1) (omega arith)),
      ))
