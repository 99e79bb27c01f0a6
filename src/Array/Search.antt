-- ===== src/Array/Search.antt =====
-- Looking for a word: `array_find` and `array_find_or_add` refine the first position in a sequence.
use snow.Base.{
  Bool, Bool-cases, List, Returns, Returns-bind, [], ap, append_assoc, arith, false, get_or,
  if◌then◌else◌, inl, inr, length, length-append, negsuc, ok, pos, refl, returns, suc, sym, ℕ, ℤ,
  ◌++◌, ◌+◌, ◌<◌, ◌==◌, ◌^◌, ◌∙◌, ◌∷◌, ◌≡◌, ◌≤◌,
}
use snow.Array.{
  Array, array_find, array_find_or_add, array_find_with_compare, find_from, is_zero, to_int,
}
use snow.Memory.{Cell, read_cell}
use snow.Memory.Prefix.{cells}
use snow.Value.{Word}
use snow.Array.Holds.{Holds}
use snow.Array.Growth.{array_push-append}

-- The first position of a word that passes the test, counted from `i`.
abbrev pub position_from : (Word → Bool) → List Word → ℕ → ℤ
position_from test [] i = negsuc 0
position_from test (x ∷ xs) i = if test x then pos i else position_from test xs (i + 1)

read_cell_middle :
    (done : List Word) (x : Word) (xs : List Word) (rest : List Cell)
    → read_cell (cells (done ++ x ∷ xs) ++ rest) (length done) ≡ ok x
unfolding read_cell
read_cell_middle [] x xs rest = refl
read_cell_middle (y ∷ done) x xs rest = read_cell_middle done x xs rest

find_from-position :
    (test : Word → Bool) (done xs all : List Word) (rest : List Cell)
    → all ≡ done ++ xs
    → find_from test (cells all ++ rest) (length done) (length xs)
      ≡ ok (position_from test xs (length done))
unfolding find_from
find_from-position test done [] all rest e = refl
find_from-position test done (x ∷ xs) all rest e =
    rw (e, read_cell_middle done x xs rest)
      (elim (Bool-cases (test x)) [
        | inl hit ↦ rw hit
        | inr miss ↦ rw miss (
            rw next (
              find_from-position test (done ++ x ∷ []) xs all rest
                (e ∙ sym (append_assoc done (x ∷ []) xs))))
      ])
  where
    next : length done + 1 ≡ length (done ++ x ∷ [])
    next = omega (arith, length-append done (x ∷ []))

-- The first position of a word in a sequence, or -1.
abbrev pub position : List Word → Word → ℤ
position xs v = position_from (λ x. x == v) xs 0

-- On an array that holds a sequence `array_find` and `array_find_with_compare` return the first
-- position whose element is the word, or compares equal to it, and -1 if there is none.
pub array_find-position :
    {a : Array} {xs : List Word} (cmp : Word → Word → ℤ) (v : Word)
    → Holds a xs
    → (array_find a v ≡ ok (position xs v))
      × (array_find_with_compare cmp a v ≡ ok (position_from (λ x. is_zero (cmp x v)) xs 0))
unfolding array_find array_find_with_compare
array_find-position {xs} cmp v h = (
  rw (h.layout, h.size_eq) (find_from-position (λ x. x == v) [] xs xs h.rest refl),
  rw (h.layout, h.size_eq) (find_from-position (λ x. is_zero (cmp x v)) [] xs xs h.rest refl),
)

-- The first index of a word, or the length; and the sequence with the word, added if it is missing.
abbrev pub slot : List Word → Word → ℕ
slot [] v = 0
slot (x ∷ xs) v = if x == v then 0 else suc (slot xs v)

abbrev pub with_word : List Word → Word → List Word
with_word [] v = v ∷ []
with_word (x ∷ xs) v = if x == v then x ∷ xs else x ∷ with_word xs v

-- What a position from `i` on says: the slot of a word that is there, or that it is missing.
pub data Located (xs : List Word) (v : Word) (i : ℕ) : ℤ → Type 0 where
  located :
      (n : ℕ)
      → n ≡ i + slot xs v
      → slot xs v < length xs
      → with_word xs v ≡ xs
      → Located xs v i (pos n)
  absent : slot xs v ≡ length xs → with_word xs v ≡ xs ++ v ∷ [] → Located xs v i (negsuc 0)

Located-cons :
    {xs : List Word} {v : Word} {i : ℕ} {r : ℤ} (x : Word)
    → (x == v) ≡ false
    → Located xs v (i + 1) r
    → Located (x ∷ xs) v i r
Located-cons x ne (located n e lt w) =
    located n (rw ne (omega (arith, e))) (rw ne (omega (arith, lt))) (rw ne (ap (λ t. x ∷ t) w))
Located-cons x ne (absent e w) = absent (rw ne (ap suc e)) (rw ne (ap (λ t. x ∷ t) w))

position_from-Located :
    (xs : List Word) (v : Word) (i : ℕ) → Located xs v i (position_from (λ x. x == v) xs i)
position_from-Located [] v i = absent refl refl
position_from-Located (x ∷ xs) v i = elim (Bool-cases (x == v)) [
  | inl hit ↦ rw hit (located i (rw hit (omega arith)) (rw hit (omega arith)) (rw hit))
  | inr miss ↦ rw miss (Located-cons x miss (position_from-Located xs v (i + 1)))
]

pub position-Located : (xs : List Word) (v : Word) → Located xs v 0 (position xs v)
position-Located xs v = position_from-Located xs v 0

to_int_small : (i : ℕ) → i < 2 ^ 31 → to_int (pos i) ≡ pos i
to_int_small i h = ground arith

-- The outcome of `array_find_or_add` for a word of a sequence.
abbrev pub FoundOrAdded : List Word → Word → ℤ × Array → Type 0
FoundOrAdded xs v (n, b) = (n ≡ pos (slot xs v)) × Holds b (with_word xs v)

find_or_add_at :
    {a : Array} {xs : List Word} {v : Word} {r : ℤ}
    → Holds a xs
    → length xs + 1 < 2 ^ 31
    → Located xs v 0 r
    → array_find a v ≡ ok r
    → Returns (FoundOrAdded xs v) (array_find_or_add a v)
unfolding array_find_or_add
find_or_add_at h small (located n e lt w) found =
    rw (found, to_int_small n (omega arith)) (returns (ap pos (omega (arith, e)), rw w h))
find_or_add_at {a} {xs} {v} h small (absent e w) found = rw found (
    Returns-bind (array_push-append v h (omega arith)) λ (x, b) p. returns (
      ap (λ k. to_int (pos k)) (h.size_eq ∙ sym e) ∙ to_int_small (slot xs v) (omega (arith, e)),
      rw w (p.1),
    ))

-- On an array that holds a sequence of fewer than 2^31 - 1 words `array_find_or_add` returns the first
-- index of the word, and appends the word if it has none.
pub array_find_or_add-slot :
    {a : Array} {xs : List Word} (v : Word)
    → Holds a xs
    → length xs + 1 < 2 ^ 31
    → Returns (FoundOrAdded xs v) (array_find_or_add a v)
array_find_or_add-slot {xs} v h small =
    find_or_add_at h small (position-Located xs v) ((array_find-position (λ x y. pos 0) v h).0)

pub slot-le-length : (xs : List Word) (v : Word) → slot xs v ≤ length xs
slot-le-length [] v = omega arith
slot-le-length (x ∷ xs) v = ground (arith, slot-le-length xs v)

-- The slot of an added word holds it.
pub slot-with_word :
    (xs : List Word) (v : Word)
    → (slot (with_word xs v) v ≡ slot xs v)
      × (slot xs v < length (with_word xs v))
      × (get_or (with_word xs v) (slot xs v) 0 ≡ v)
slot-with_word [] v = ground arith
slot-with_word (x ∷ xs) v = ground (arith, slot-with_word xs v)

position_at :
    {xs : List Word} {v : Word} {r : ℤ}
    → Located xs v 0 r
    → slot xs v < length xs
    → r ≡ pos (slot xs v)
position_at (located n e lt w) h = ap pos (omega (arith, e))
position_at (absent e w) h = absurd (omega (arith, e))

-- A word that an array holds is found at its slot.
pub array_find-slot :
    {a : Array} {xs : List Word} (v : Word)
    → Holds a xs
    → slot xs v < length xs
    → array_find a v ≡ ok (pos (slot xs v))
array_find-slot {a} {xs} v h lt =
    (array_find-position (λ x y. pos 0) v h).0 ∙ ap ok (position_at (position-Located xs v) lt)
