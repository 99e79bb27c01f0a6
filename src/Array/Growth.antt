-- ===== src/Array/Growth.antt =====
-- Growing and writing: `array_grow`, `array_set` and `array_push` refine writing to a sequence.
use snow.Base.{
  Bool-cases, List, Returns, Returns-bind, [], ap, append-nil, arith, drop, false, inl, inr, length,
  length-append, length-drop, length-replicate, length-set, ltb, ltb_ℤ, negsuc, ok, pos, refl,
  replicate, returns, set, suc, trap, true, zero, ℕ, ℤ, ◌++◌, ◌+ℤ◌, ◌-◌, ◌<◌, ◌∙◌, ◌∷◌, ◌≡◌, ◌≤◌,
}
use snow.Value.{Word, sn_nil}
use snow.Memory.{blob, write_cell}
use snow.Memory.Prefix.{
  copy_cells-cells, fill_cells-cells, length-blob, length-drop-blob, write_cell-cells,
}
use snow.Array.{
  Array, array_grow, array_push, array_set, extend, grow_past, reserve, store_in, u32_mod,
}
use snow.Array.Access.{from_end-held, from_end-outside, from_end-pos}
use snow.Array.Holds.{Holds, put}

-- What `reserve` leaves: the same words, and room for `n` of them.
abbrev Reserved : List Word → ℕ → Array → Type 0
Reserved xs n b = Holds b xs × (n ≤ b.alloc_size)

reserve-Reserved :
    {a : Array} {xs : List Word} (n : ℕ)
    → Holds a xs
    → length xs ≤ n
    → n < u32_mod
    → Returns (Reserved xs n) (reserve a n)
unfolding reserve
reserve-Reserved {a} {xs} n h le small = elim (Bool-cases (ltb a.alloc_size n)) [
  | inl more ↦ rw more (
      rw (h.layout, h.size_eq)
        (rw (copy_cells-cells (blob n) h.rest xs (length xs) refl (omega (arith, length-blob n))) (
          returns (
            record {
              rest = drop (length xs) (blob n);
              layout = refl;
              size_eq = refl;
              room = omega (arith, length-drop-blob (length xs) n);
              small = h.small;
            },
            omega arith,
          ))))
  | inr enough ↦ rw enough (returns (h, ground arith))
]

extend-Holds :
    {a : Array} {xs : List Word} (n : ℕ)
    → Reserved xs n a
    → length xs ≤ n
    → n < u32_mod
    → Returns (λ b. Holds b (xs ++ replicate (n - length xs) sn_nil)) (extend a n)
unfolding extend
extend-Holds {a} {xs} n (h, enough) le small = elim (Bool-cases (ltb a.size n)) [
  | inl more ↦ rw more (
      rw (h.layout, h.size_eq)
        (rw (fill_cells-cells sn_nil (n - length xs) xs h.rest (length xs) refl (omega arith)) (
          returns (record {
            rest = drop (n - length xs) h.rest;
            layout = refl;
            size_eq = omega (arith, grown);
            room = omega (arith, grown, length-drop (n - length xs) h.rest);
            small = omega (arith, grown);
          }))))
  | inr same ↦ rw same (returns (rw (all_in same, append-nil) h))
]
  where
    grown : length (xs ++ replicate (n - length xs) sn_nil) ≡ n
    grown = omega (
      arith,
      length-append xs (replicate (n - length xs) sn_nil),
      length-replicate (n - length xs) sn_nil,
    )

    all_in : ltb a.size n ≡ false → n - length xs ≡ 0
    all_in e = ground (arith, h.size_eq)

-- `array_grow` to a size that is not smaller adds nils, and only them.
pub array_grow-Holds :
    {a : Array} {xs : List Word} (n : ℕ)
    → Holds a xs
    → length xs ≤ n
    → n < u32_mod
    → Returns (λ b. Holds b (xs ++ replicate (n - length xs) sn_nil)) (array_grow a (pos n))
unfolding array_grow
array_grow-Holds n h le small =
    Returns-bind (reserve-Reserved n h le small) (λ b r. extend-Holds n r le small)

-- The sequence that `grow_past` makes room in.
abbrev pub padded : List Word → ℤ → List Word
padded xs (pos i) = xs ++ replicate (suc i - length xs) sn_nil
padded xs (negsuc n) = xs

+ℤ-one : (n : ℕ) → pos n +ℤ pos 1 ≡ pos (suc n)
unfolding ◌+ℤ◌
+ℤ-one n = ground arith

pub grow_past-padded :
    {a : Array} {xs : List Word} (i : ℕ)
    → Holds a xs
    → suc i < u32_mod
    → Returns (λ b. Holds b (padded xs (pos i))) (grow_past a (pos i))
unfolding grow_past
grow_past-padded {a} {xs} i h small = elim (Bool-cases (ltb_ℤ (pos i) (pos a.size))) [
  | inl inside ↦ rw inside (returns (rw (no_pad inside, append-nil) h))
  | inr outside ↦
      rw outside (rw (+ℤ-one i) (array_grow-Holds (suc i) h (ground (arith, h.size_eq)) small))
]
  where
    no_pad : ltb_ℤ (pos i) (pos a.size) ≡ true → suc i - length xs ≡ 0
    no_pad e = ground (arith, h.size_eq)

pub grow_past-negsuc : (a : Array) (n : ℕ) → grow_past a (negsuc n) ≡ ok a
unfolding grow_past
grow_past-negsuc a n = ground arith

-- A write at a known index.
pub write_held :
    {a : Array} {xs : List Word} (i : ℕ) (v : Word)
    → Holds a xs
    → i < length xs
    → Returns (λ d. Holds (record a { data_cells = d }) (set xs i v)) (write_cell a.data_cells i v)
write_held {a} {xs} i v h lt = rw h.layout (
    rw (write_cell-cells xs h.rest i v lt) (
      returns (record {
        rest = h.rest;
        layout = refl;
        size_eq = omega (arith, h.size_eq, length-set xs i v);
        room = omega (arith, h.room, length-set xs i v);
        small = omega (arith, h.small, length-set xs i v);
      })))

-- What a write returns, and the sequence that it leaves.
abbrev pub Stored : Word → List Word → Word × Array → Type 0
Stored v xs (w, b) = (w ≡ v) × Holds b xs

store_in-Stored :
    {b : Array} {xs : List Word} (i : ℕ) (v : Word)
    → Holds b xs
    → i < length xs
    → Returns (Stored v (set xs i v)) (store_in v b (pos i))
unfolding store_in
store_in-Stored i v h lt = Returns-bind (write_held i v h lt) (λ d k. returns (refl, k))

set-replicate : (i : ℕ) (c v : Word) → set (replicate (suc i) c) i v ≡ replicate i c ++ v ∷ []
set-replicate zero c v = refl
set-replicate (suc i) c v = ap (λ t. c ∷ t) (set-replicate i c v)

-- Writing into the padded sequence is `put`.
set-append_replicate :
    (xs : List Word) (i k : ℕ) (v : Word)
    → k ≡ suc i - length xs
    → set (xs ++ replicate k sn_nil) i v ≡ put xs i v
set-append_replicate [] i k v e =
    let e' : k ≡ suc i = omega (arith, e) in
    let n : i - 0 ≡ i = omega arith in rw e' (set-replicate i sn_nil v ∙ ground (arith, n))
set-append_replicate (x ∷ xs) zero k v e =
    let e' : k ≡ 0 = omega (arith, e) in rw (e', append-nil) (ground arith)
set-append_replicate (x ∷ xs) (suc i) k v e =
    ap (λ t. x ∷ t) (set-append_replicate xs i k v (omega (arith, e))) ∙ put-cons
  where
    put-cons : x ∷ put xs i v ≡ put (x ∷ xs) (suc i) v
    put-cons = ground arith

pub reached : (i : ℕ) (xs : List Word) → i < length (padded xs (pos i))
reached i xs = omega (
  arith,
  length-append xs (replicate (suc i - length xs) sn_nil),
  length-replicate (suc i - length xs) sn_nil,
)

-- On an array that holds a sequence `array_set` at an index that is not negative, below 2^32 - 1,
-- stores the word there, with nils up to it if it lies past the end, and returns the word.
pub array_set-put :
    {a : Array} {xs : List Word} (i : ℕ) (v : Word)
    → Holds a xs
    → suc i < u32_mod
    → Returns (Stored v (put xs i v)) (array_set a (pos i) v)
unfolding array_set
array_set-put {a} {xs} i v h small = Returns-bind (grow_past-padded i h small) (λ b k.
    rw (from_end-pos b.size i) (
      rw (← set-append_replicate xs i (suc i - length xs) v refl)
        (store_in-Stored i v k (reached i xs))))

-- At a negative index `array_set` counts from the end.
pub array_set_from_end :
    {a : Array} {xs : List Word} (n : ℕ) (v : Word)
    → Holds a xs
    → n < length xs
    → Returns (Stored v (set xs (length xs - suc n) v)) (array_set a (negsuc n) v)
unfolding array_set
array_set_from_end {a} {xs} n v h lt =
    rw (grow_past-negsuc a n)
      (rw (from_end-held n h lt) (store_in-Stored (length xs - suc n) v h (omega arith)))

-- Further from the end than the array is long, `array_set` traps.
pub array_set-trap :
    {a : Array} {xs : List Word} (n : ℕ) (v : Word)
    → Holds a xs
    → length xs ≤ n
    → array_set a (negsuc n) v ≡ trap
unfolding array_set store_in
array_set-trap {a} {xs} n v h le =
    rw (grow_past-negsuc a n, from_end-outside a.size n (omega (arith, h.size_eq)))

pub put_end : (xs : List Word) (v : Word) → put xs (length xs) v ≡ xs ++ v ∷ []
put_end xs v = let e : length xs - length xs ≡ 0 = omega arith in ground (arith, e)

-- On an array that holds a sequence of fewer than 2^32 - 1 words `array_push` appends the word and
-- returns it.
pub array_push-append :
    {a : Array} {xs : List Word} (v : Word)
    → Holds a xs
    → suc (length xs) < u32_mod
    → Returns (Stored v (xs ++ v ∷ [])) (array_push a v)
unfolding array_push
array_push-append {a} {xs} v h small =
    let e : array_set a (pos a.size) v ≡ array_set a (pos (length xs)) v =
      ap (λ n. array_set a (pos n) v) h.size_eq in
    rw (e, ← put_end xs v) (array_set-put (length xs) v h small)
