-- ===== src/Header/Bits.antt =====
-- Counting the bits of a word that are set, which the compiler's function does.
use snow.Base.{arith, refl, suc, zero, ℕ, ◌%◌, ◌+◌, ◌/◌, ◌<◌, ◌≡◌, ◌≤◌}
use snow.Header.Checksum.{FewBits}
use snow.Value.{Word}

-- The bits that are set among the lowest `n`.
abbrev bits_set : ℕ → Word → ℕ
bits_set zero w = 0
bits_set (suc n) w = w % 2 + bits_set n (w / 2)

abbrev twice : ℕ → ℕ
twice zero = 1
twice (suc k) = twice k + twice k

bits_set_zero : (n : ℕ) → bits_set n 0 ≡ 0
bits_set_zero zero = refl
bits_set_zero (suc n) =
    let half : 0 / 2 ≡ 0 = omega arith in rw half (omega (arith, bits_set_zero n))

bits_set_at_most : (n k : ℕ) (w : Word) → w < twice k → bits_set n w ≤ k
bits_set_at_most zero k w h = omega arith
bits_set_at_most (suc n) zero w h =
    let e : w ≡ 0 = omega arith in rw (e, bits_set_zero n) (omega arith)
bits_set_at_most (suc n) (suc k) w h = omega (arith, bits_set_at_most n k (w / 2) (omega arith))

abbrev pub popcount_64 : Word → ℕ
popcount_64 w = bits_set 64 w

pub popcount_64-FewBits : FewBits popcount_64
popcount_64-FewBits w h = bits_set_at_most 64 58 w h
