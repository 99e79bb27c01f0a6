-- ===== src/Codegen/Machine/Bits.antt =====
-- Two laws of the bits: what a mask keeps, and that a word differs nowhere from itself.
use snow.Base.{
  Bool, List, [], ap, arith, false, if◌then◌else◌, min, refl, replicate, suc, sym, true, zero, ℕ,
  ◌%◌, ◌*◌, ◌+◌, ◌-◌, ◌/◌, ◌<◌, ◌^◌, ◌∙◌, ◌∷◌, ◌≡◌, ◌≤◌,
}
use snow.Value.{Word}
use Prim.Native.Nat.{bit_and, bit_and-bitwise, bit_xor, bit_xor-bitwise, differ, digits}

differ_self : (n : ℕ) → differ n n ≡ 0
differ_self zero = refl
differ_self (suc n) = differ_self n

digits-differ : (n a : ℕ) → a ≤ n → digits (λ b. b) differ n a a ≡ 0
digits-differ zero a h = omega arith
digits-differ (suc n) zero h = refl
digits-differ (suc n) (suc a) h =
    omega (arith, digits-differ n (suc a / 2) (omega arith), differ_self (suc a % 2))

pub bit_xor_self : (a : ℕ) → bit_xor a a ≡ 0
bit_xor_self a = bit_xor-bitwise a a ∙ digits-differ a a (omega arith)

-- A mask by its bits, the lowest first, and what it keeps of a number.
abbrev value : List Bool → ℕ
value [] = 0
value (b ∷ bs) = value bs * 2 + (if b then 1 else 0)

abbrev keep : List Bool → ℕ → ℕ
keep [] a = 0
keep (b ∷ bs) a = keep bs (a / 2) * 2 + (if b then a % 2 else 0)

digits_zero : (n a : ℕ) → digits (λ b. 0) min n a 0 ≡ 0
digits_zero zero a = refl
digits_zero (suc n) zero = refl
digits_zero (suc n) (suc a) = omega (arith, digits_zero n (suc a / 2))

keep_zero : (bs : List Bool) → keep bs 0 ≡ 0
keep_zero [] = refl
keep_zero (true ∷ bs) = omega (arith, keep_zero bs)
keep_zero (false ∷ bs) = omega (arith, keep_zero bs)

digits-keep : (bs : List Bool) (n a : ℕ) → a ≤ n → digits (λ b. 0) min n a (value bs) ≡ keep bs a
digits-keep [] n a h = digits_zero n a
digits-keep (b ∷ bs) zero zero h = sym (keep_zero (b ∷ bs))
digits-keep (b ∷ bs) zero (suc a) h = absurd (omega arith)
digits-keep (b ∷ bs) (suc n) zero h = sym (keep_zero (b ∷ bs))
digits-keep (true ∷ bs) (suc n) (suc a) h =
    let low : min (suc a % 2) ((value bs * 2 + 1) % 2) ≡ suc a % 2 = omega arith in
    let high : (value bs * 2 + 1) / 2 ≡ value bs = omega arith in
    rw (high, low) (omega (arith, digits-keep bs n (suc a / 2) (omega arith)))
digits-keep (false ∷ bs) (suc n) (suc a) h =
    let low : min (suc a % 2) ((value bs * 2 + 0) % 2) ≡ 0 = omega arith in
    let high : (value bs * 2 + 0) / 2 ≡ value bs = omega arith in
    rw (high, low) (omega (arith, digits-keep bs n (suc a / 2) (omega arith)))

abbrev power : ℕ → ℕ
power zero = 1
power (suc k) = power k * 2

keep_all : (k a : ℕ) → a < power k → keep (replicate k true) a ≡ a
keep_all zero a h = omega arith
keep_all (suc k) a h = omega (arith, keep_all k (a / 2) (omega arith))

abbrev ones : List Bool
ones = replicate 61 true

keep-ones : (a : ℕ) → a < 2 ^ 61 → keep ones a ≡ a
keep-ones a h = keep_all 61 a h

regroup : (v : ℕ) → ((v / 2 / 2 / 2 * 2 + 0) * 2 + 0) * 2 + v % 2 ≡ v / 8 * 8 + v % 2
regroup v = omega arith

mask_keeps : (v : Word) → v < 2 ^ 64 → keep (true ∷ false ∷ false ∷ ones) v ≡ v / 8 * 8 + v % 2
mask_keeps v h =
    ap (λ w. ((w * 2 + 0) * 2 + 0) * 2 + v % 2) (keep-ones (v / 2 / 2 / 2) (omega arith))
    ∙ regroup v

-- The mask ~0x6 clears the second and the third bit.
pub bit_and_mask : (v : Word) → v < 2 ^ 64 → bit_and v (2 ^ 64 - 7) ≡ v / 8 * 8 + v % 2
bit_and_mask v h =
    bit_and-bitwise v (2 ^ 64 - 7)
    ∙ digits-keep (true ∷ false ∷ false ∷ ones) v v (omega arith)
    ∙ mask_keeps v h
