-- ===== src/Str/Length.antt =====
-- Counting characters: it ends if the bytes are characters, and never at a zero byte.
use snow.Base.{
  List, ap, arith, drop, false, ok, pos, refl, suc, trap, zero, ℕ, ℤ, ◌%◌, ◌+◌, ◌-◌, ◌<◌, ◌==◌, ◌∙◌,
  ◌≡◌,
}
use snow.Str.{size_mod, strlen_from, strlen_locale}

module _ (mblen : List ℕ → ℕ → ℤ) (bs : List ℕ) where
  -- From an index, so many bytes are so many characters.
  pub data Chars : (p num_bytes count : ℕ) → Type 0 where
    chars_end : {p : ℕ} → Chars p 0 0
    chars_next :
        {p num_bytes count : ℕ} (k : ℕ)
        → mblen (drop p bs) (suc k + num_bytes) ≡ pos (suc k)
        → Chars (p + suc k) num_bytes count
        → Chars p (suc k + num_bytes) (suc count)

  strlen_from-Chars :
      (n p num_bytes before count : ℕ)
      → Chars p num_bytes count
      → num_bytes < n
      → num_bytes + before < size_mod
      → strlen_from mblen n bs p num_bytes before ≡ ok (before + count)
  unfolding strlen_from
  strlen_from-Chars zero p num_bytes before count chars enough small = absurd (omega arith)
  strlen_from-Chars (suc n) p zero before zero chars_end enough small = ap ok (omega arith)
  strlen_from-Chars (suc n) p num_bytes before count
        (chars_next {num_bytes = rest} {count = further_count} k e chars) enough small =
      let some_left : (suc k + rest == 0) ≡ false = ground arith in
      let fewer : (suc k + rest + size_mod - suc k) % size_mod ≡ rest = omega arith in
      let one_more : (before + 1) % size_mod ≡ before + 1 = omega arith in
      rw (some_left, e, fewer, one_more)
        (strlen_from-Chars n (p + suc k) rest (before + 1) further_count chars (omega arith)
            (omega arith)
          ∙ ap ok (omega arith))

  -- If the bytes of a string are characters of the locale, fewer bytes than the fuel, then
  -- `strlen_locale` returns how many characters they are.
  pub strlen_locale-Chars :
      (n num_bytes count : ℕ)
      → Chars 0 num_bytes count
      → num_bytes < n
      → num_bytes < size_mod
      → strlen_locale mblen n bs num_bytes ≡ ok count
  unfolding strlen_locale
  strlen_locale-Chars n num_bytes count chars enough small =
      strlen_from-Chars n 0 num_bytes 0 count chars enough (omega arith) ∙ ap ok (omega arith)

  zero_from :
      (n p num_bytes before : ℕ)
      → 0 < num_bytes
      → num_bytes < size_mod
      → mblen (drop p bs) num_bytes ≡ pos 0
      → strlen_from mblen n bs p num_bytes before ≡ trap
  unfolding strlen_from
  zero_from zero p num_bytes before some_left small stuck = refl
  zero_from (suc n) p num_bytes before some_left small stuck =
      let more : (num_bytes == 0) ≡ false = ground arith in
      let here : p + 0 ≡ p = omega arith in
      let as_many : (num_bytes + size_mod - 0) % size_mod ≡ num_bytes = omega arith in
      rw (more, stuck, here, as_many)
        (zero_from n p num_bytes ((before + 1) % size_mod) some_left small stuck)

  -- If the first byte of a string that has bytes is one that `mblen` gives the length 0, as it does for a
  -- zero byte, then `strlen_locale` never returns: it uses up any fuel.
  pub strlen_locale_endless :
      (n num_bytes : ℕ)
      → 0 < num_bytes
      → num_bytes < size_mod
      → mblen (drop 0 bs) num_bytes ≡ pos 0
      → strlen_locale mblen n bs num_bytes ≡ trap
  unfolding strlen_locale
  strlen_locale_endless n num_bytes some_left small stuck =
      zero_from n 0 num_bytes 0 some_left small stuck
