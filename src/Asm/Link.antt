-- ===== src/Asm/Link.antt =====
-- Binding labels and linking jumps to them (`asm_bind`, `asm_link`).
use snow.Asm.{asm_link, int32_bytes}
use snow.Asm.Decode.{FitsIn, low_word_32, read_disp32, signed-to_word}
use snow.Base.{
  List, [], ap, arith, drop, int_laws, length, length-append, ltb_ℤ, not, ok, pos, refl, some,
  subst, suc, take, true, ℕ, ℤ, ◌++◌, ◌+ℤ◌, ◌+◌, ◌-ℤ◌, ◌<◌, ◌∷◌, ◌≡◌,
}
use snow.LinkBuffer.{Byte, Page, linkbuffer_modify}
use snow.LinkBuffer.Contents.{bytes}
use snow.LinkBuffer.Modify.{linkbuffer_modify-replaced, replaced}
use snow.Value.{to_word}
use snow.Operands.{disp32}

-- The four bytes of a jump's distance are read back, whatever is behind them.
read_disp32_int32 :
    (d : ℤ) (rest : List Byte)
    → FitsIn disp32 d
    → read_disp32 (int32_bytes d ++ rest) ≡ some (d, rest)
unfolding int32_bytes
read_disp32_int32 d rest h = rw (low_word_32 (to_word d), signed-to_word d h)

module _ {ℓ} {A : Type ℓ} where
  take-length : (xs ys : List A) → take (length xs) (xs ++ ys) ≡ xs
  take-length [] ys = refl
  take-length (x ∷ xs) ys = ap (λ t. x ∷ t) (take-length xs ys)

  drop-length : (xs ys : List A) (k : ℕ) → drop (length xs + k) (xs ++ ys) ≡ drop k ys
  drop-length [] ys k = ap (λ (m : ℕ). drop m ys) (omega arith)
  drop-length (x ∷ xs) ys k =
      let e : suc (length xs) + k ≡ suc (length xs + k) = omega arith in rw e (drop-length xs ys k)

-- What `replaced` makes of a page that is given by its parts.
replaced_parts :
    (xs old ys new_data : List Byte)
    → length old ≡ length new_data
    → replaced (xs ++ (old ++ ys)) (length xs) new_data ≡ xs ++ (new_data ++ ys)
replaced_parts xs old ys new_data h =
    let l : length new_data ≡ length old + 0 = omega arith in
    rw (take-length xs (old ++ ys), drop-length xs (old ++ ys) (length new_data))
      (rw l (rw (drop-length old ys 0) refl))

distance_fits :
    (l r : ℕ) → l < 2147483648 → r + 4 < 2147483648 → FitsIn disp32 (pos l -ℤ pos (r + 4))
unfolding ◌-ℤ◌
distance_fits l r h k = ground arith

length-int32_bytes : (d : ℤ) → length (int32_bytes d) ≡ 4
unfolding int32_bytes
length-int32_bytes d = refl

modify_four :
    (n : ℕ) (before : List Page) (xs old ys : List Byte) (ps : List Page) (new_data : List Byte)
    → length old ≡ 4
    → length new_data ≡ 4
    → linkbuffer_modify
        (record { page_size = n; pages = before ++ (xs ++ (old ++ ys)) ∷ ps })
        (length (bytes before) + length xs)
        4
        new_data
      ≡ ok (4, record { page_size = n; pages = before ++ (xs ++ (new_data ++ ys)) ∷ ps })
modify_four n before xs old ys ps new_data ho hn =
    let page : Page = xs ++ (old ++ ys) in
    let written =
      linkbuffer_modify-replaced n before page ps (length xs) new_data (omega arith)
        (omega (arith, length-append xs (old ++ ys), length-append old ys)) in
    subst
      (λ q.
        linkbuffer_modify (record { page_size = n; pages = before ++ page ∷ ps })
          (length (bytes before) + length xs) 4 new_data
        ≡ ok (4, record { page_size = n; pages = before ++ q ∷ ps }))
      (replaced_parts xs old ys new_data (omega arith))
      (subst
        (λ (k : ℕ).
          linkbuffer_modify (record { page_size = n; pages = before ++ page ∷ ps })
            (length (bytes before) + length xs) k new_data
          ≡ ok (
            k,
            record { page_size = n; pages = before ++ replaced page (length xs) new_data ∷ ps },
          ))
        hn written)

-- Linking a reference to a bound label, both below 2^31 and the reference's four bytes inside one page,
-- replaces these bytes and no other; what a processor reads there is a distance that leads from the
-- end of the jump to the label.
pub asm_link-target :
    (n : ℕ) (before : List Page) (xs old ys : List Byte) (ps : List Page) (l : ℕ)
    → length old ≡ 4
    → l < 2147483648
    → length (bytes before) + length xs + 4 < 2147483648
    → (d : ℤ) × (asm_link
          (record { page_size = n; pages = before ++ (xs ++ (old ++ ys)) ∷ ps })
          (record { offset = length (bytes before) + length xs })
          (record { offset = pos l })
        ≡ ok (record { page_size = n; pages = before ++ (xs ++ (int32_bytes d ++ ys)) ∷ ps }))
      × ((rest : List Byte) → read_disp32 (int32_bytes d ++ rest) ≡ some (d, rest))
      × (pos (length (bytes before) + length xs + 4) +ℤ d ≡ pos l)
unfolding asm_link
asm_link-target n before xs old ys ps l four hl hr =
    let r : ℕ = length (bytes before) + length xs in
    let d : ℤ = pos l -ℤ pos (r + 4) in
    let bound : not (ltb_ℤ (pos l) (pos 0)) ≡ true = ground arith in
    (
      d,
      rw (bound, modify_four n before xs old ys ps (int32_bytes d) four (length-int32_bytes d))
          refl,
      λ rest. read_disp32_int32 d rest (distance_fits l r hl hr),
      omega int_laws,
    )
