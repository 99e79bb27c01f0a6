-- ===== src/Str/Format.antt =====
-- Formatting replaces each insertion mark by the next argument.
use snow.Base.{
  Bool-cases, List, [], ap, append-nil, append_assoc, arith, false, if◌then◌else◌, inl, inr, length,
  length-append, ltb, ok, refl, suc, sym, true, ℕ, ◌*◌, ◌++◌, ◌+◌, ◌-◌, ◌==◌, ◌∙◌, ◌∷◌, ◌≡◌, ◌≤◌,
}
use snow.Str.{combined_len, count_insertions, fill_buffer, format_buffer, is_insertion}

-- The format with its marks replaced.
unfoldable pub substituted : List ℕ → List (List ℕ) → List ℕ
substituted [] ss = []
substituted (c ∷ []) ss = c ∷ []
substituted (c ∷ d ∷ cs) [] = c ∷ substituted (d ∷ cs) []
substituted (c ∷ d ∷ cs) (s ∷ ss) =
    if is_insertion c d then s ++ substituted cs ss else c ∷ substituted (d ∷ cs) (s ∷ ss)

count_mark :
    (c d : ℕ) (cs : List ℕ)
    → is_insertion c d ≡ true
    → count_insertions (c ∷ d ∷ cs) ≡ suc (count_insertions cs)
unfolding count_insertions
count_mark c d cs e = rw e refl

count_plain :
    (c d : ℕ) (cs : List ℕ)
    → is_insertion c d ≡ false
    → count_insertions (c ∷ d ∷ cs) ≡ count_insertions (d ∷ cs)
unfolding count_insertions
count_plain c d cs e = rw e refl

-- How long it is, with as many strings as marks.
length-substituted :
    (format : List ℕ) (ss : List (List ℕ))
    → length ss ≡ count_insertions format
    → length (substituted format ss) + count_insertions format * 2 ≡ length format + combined_len ss
unfolding substituted count_insertions
length-substituted [] [] e = refl
length-substituted [] (s ∷ ss) e = absurd (omega arith)
length-substituted (c ∷ []) [] e = refl
length-substituted (c ∷ []) (s ∷ ss) e = absurd (omega arith)
length-substituted (c ∷ d ∷ cs) [] e = elim (Bool-cases (is_insertion c d)) [
  | inl mark ↦ absurd (omega (arith, e, count_mark c d cs mark))
  | inr plain ↦
      rw plain (omega (arith, length-substituted (d ∷ cs) [] (e ∙ count_plain c d cs plain)))
]
length-substituted (c ∷ d ∷ cs) (s ∷ ss) e = elim (Bool-cases (is_insertion c d)) [
  | inl mark ↦ rw mark (
      omega (
        arith,
        length-append s (substituted cs ss),
        length-substituted cs ss (omega (arith, e, count_mark c d cs mark)),
      ))
  | inr plain ↦
      rw plain (omega (arith, length-substituted (d ∷ cs) (s ∷ ss) (e ∙ count_plain c d cs plain)))
]

nothing_left :
    (out xs : List ℕ) (n : ℕ)
    → n ≡ length out + length xs
    → ltb (length out) n ≡ false
    → out ≡ out ++ xs
nothing_left out [] n e full = sym (append-nil out)
nothing_left out (x ∷ xs) n e full = absurd (ground (arith, e, full))

-- The rounds of the loop.
module _ (n : ℕ) (out : List ℕ) where
  fill_done :
      (format : List ℕ) (ss : List (List ℕ))
      → ltb (length out) n ≡ false
      → fill_buffer n format out ss ≡ ok out
  unfolding fill_buffer
  fill_done [] ss e = rw e refl
  fill_done (c ∷ []) ss e = rw e refl
  fill_done (c ∷ d ∷ cs) ss e = rw e refl

  fill_last :
      (c : ℕ) (ss : List (List ℕ))
      → ltb (length out) n ≡ true
      → fill_buffer n (c ∷ []) out ss ≡ fill_buffer n [] (out ++ c ∷ []) ss
  unfolding fill_buffer
  fill_last c ss e = rw e refl

  fill_plain :
      (c d : ℕ) (cs : List ℕ) (ss : List (List ℕ))
      → ltb (length out) n ≡ true
      → is_insertion c d ≡ false
      → fill_buffer n (c ∷ d ∷ cs) out ss ≡ fill_buffer n (d ∷ cs) (out ++ c ∷ []) ss
  unfolding fill_buffer
  fill_plain c d cs ss e p = rw (e, p) refl

  fill_mark :
      (c d : ℕ) (cs : List ℕ) (s : List ℕ) (ss : List (List ℕ))
      → ltb (length out) n ≡ true
      → is_insertion c d ≡ true
      → fill_buffer n (c ∷ d ∷ cs) out (s ∷ ss) ≡ fill_buffer n cs (out ++ s) ss
  unfolding fill_buffer
  fill_mark c d cs s ss e p = rw (e, p) refl

substituted_plain :
    (c d : ℕ) (cs : List ℕ) (ss : List (List ℕ))
    → is_insertion c d ≡ false
    → substituted (c ∷ d ∷ cs) ss ≡ c ∷ substituted (d ∷ cs) ss
unfolding substituted
substituted_plain c d cs [] p = refl
substituted_plain c d cs (s ∷ ss) p = rw p refl

substituted_mark :
    (c d : ℕ) (cs : List ℕ) (s : List ℕ) (ss : List (List ℕ))
    → is_insertion c d ≡ true
    → substituted (c ∷ d ∷ cs) (s ∷ ss) ≡ s ++ substituted cs ss
unfolding substituted
substituted_mark c d cs s ss p = rw p refl

-- A byte that is no mark is copied.
fill_next :
    (c d : ℕ) (cs out : List ℕ) (ss : List (List ℕ)) (n : ℕ)
    → length ss ≡ count_insertions (c ∷ d ∷ cs)
    → n ≡ length out + length (substituted (c ∷ d ∷ cs) ss)
    → is_insertion c d ≡ false
    → (length ss ≡ count_insertions (d ∷ cs)
        → n ≡ length (out ++ c ∷ []) + length (substituted (d ∷ cs) ss)
        → fill_buffer n (d ∷ cs) (out ++ c ∷ []) ss
          ≡ ok ((out ++ c ∷ []) ++ substituted (d ∷ cs) ss))
    → fill_buffer n (c ∷ d ∷ cs) out ss ≡ ok (out ++ substituted (c ∷ d ∷ cs) ss)
fill_next c d cs out ss n e room plain rest =
    let same = substituted_plain c d cs ss plain in
    let long : length (substituted (c ∷ d ∷ cs) ss) ≡ suc (length (substituted (d ∷ cs) ss)) =
      ap length same in
    fill_plain n out c d cs ss (ground (arith, room, long)) plain
    ∙ rest (e ∙ count_plain c d cs plain) (omega (arith, room, long, length-append out (c ∷ [])))
    ∙ ap ok (append_assoc out (c ∷ []) (substituted (d ∷ cs) ss) ∙ ap (λ t. out ++ t) (sym same))

-- With room for exactly the rest, the loop writes the rest.
pub fill_buffer-substituted :
    (format out : List ℕ) (ss : List (List ℕ)) (n : ℕ)
    → length ss ≡ count_insertions format
    → n ≡ length out + length (substituted format ss)
    → fill_buffer n format out ss ≡ ok (out ++ substituted format ss)
unfolding substituted count_insertions
fill_buffer-substituted [] out ss n e room =
    fill_done n out [] ss (ground (arith, room)) ∙ ap ok (sym (append-nil out))
fill_buffer-substituted (c ∷ []) out ss n e room =
    fill_last n out c ss (ground (arith, room))
    ∙ fill_buffer-substituted [] (out ++ c ∷ []) ss n e (omega (arith, length-append out (c ∷ [])))
    ∙ ap ok (append-nil (out ++ c ∷ []))
fill_buffer-substituted (c ∷ d ∷ cs) out [] n e room = elim (Bool-cases (is_insertion c d)) [
  | inl mark ↦ absurd (omega (arith, e, count_mark c d cs mark))
  | inr plain ↦
      fill_next c d cs out [] n e room plain (fill_buffer-substituted (d ∷ cs) (out ++ c ∷ []) [] n)
]
fill_buffer-substituted (c ∷ d ∷ cs) out (s ∷ ss) n e room = elim (Bool-cases (is_insertion c d)) [
  | inr plain ↦
      fill_next c d cs out (s ∷ ss) n e room plain
        (fill_buffer-substituted (d ∷ cs) (out ++ c ∷ []) (s ∷ ss) n)
  | inl mark ↦
      let long =
        ap length (substituted_mark c d cs s ss mark) ∙ length-append s (substituted cs ss) in
      elim (Bool-cases (ltb (length out) n)) [
        | inr full ↦
            fill_done n out (c ∷ d ∷ cs) (s ∷ ss) full
            ∙ ap ok (nothing_left out (substituted (c ∷ d ∷ cs) (s ∷ ss)) n room full)
        | inl more ↦
            fill_mark n out c d cs s ss more mark
            ∙ fill_buffer-substituted cs (out ++ s) ss n (omega (arith, e, count_mark c d cs mark))
                (omega (arith, room, long, length-append out s))
            ∙ ap ok (
                append_assoc out s (substituted cs ss)
                ∙ ap (λ t. out ++ t) (sym (substituted_mark c d cs s ss mark)))
      ]
]

marks_fit : (format : List ℕ) → count_insertions format * 2 ≤ length format
unfolding count_insertions
marks_fit [] = omega arith
marks_fit (c ∷ []) = omega arith
marks_fit (c ∷ d ∷ cs) = elim (Bool-cases (is_insertion c d)) [
  | inl mark ↦ omega (arith, marks_fit cs, count_mark c d cs mark)
  | inr plain ↦ omega (arith, marks_fit (d ∷ cs), count_plain c d cs plain)
]

-- With as many arguments as the format has insertion marks, `snow_format_string` fills its buffer exactly,
-- with the format in which each mark is replaced by the bytes of the next argument.
pub format_buffer-substituted :
    (format : List ℕ) (ss : List (List ℕ))
    → length ss ≡ count_insertions format
    → format_buffer format ss ≡ ok (substituted format ss)
unfolding format_buffer
format_buffer-substituted format ss e =
    let same : (length ss == count_insertions format) ≡ true = ground (arith, e) in
    rw same (
      fill_buffer-substituted format [] ss
        (length format - count_insertions format * 2 + combined_len ss) e
        (omega (arith, marks_fit format, length-substituted format ss e)))
