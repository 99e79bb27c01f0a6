-- ===== src/Array/Removal.antt =====
-- Taking elements out: `array_pop`, `array_erase` and `array_clear` refine removal from a sequence.
use snow.Base.{
  List, Returns, Returns-bind, [], ap, arith, false, get_or, length, length-replicate, length-set,
  lt→ltb, negsuc, ok, pos, refl, replicate, returns, set, some, suc, sym, trap, zero, ℕ, ◌++◌, ◌+◌,
  ◌-◌, ◌<◌, ◌==◌, ◌∙◌, ◌∷◌, ◌≡◌, ◌≤◌,
}
use snow.Value.{Word, null, sn_nil}
use snow.Memory.{Cell, fill_cells, write_cell}
use snow.Memory.Prefix.{
  cells, drop-cells, fill_cells-cells, length-cells, read_cell-cells, write_cell-cells,
}
use snow.Array.{
  Array, array_clear, array_erase, array_pop, clear_cells, pred_u32, remove_in, shift_down, u32_mod,
}
use snow.Array.Access.{from_end-held, from_end-outside, from_end-pos, read_held}
use snow.Array.Holds.{Holds}
use snow.Array.Growth.{grow_past-negsuc, grow_past-padded, padded, reached}

-- The sequence without the element at an index.
abbrev pub remove : List Word → ℕ → List Word
remove [] i = []
remove (x ∷ xs) zero = xs
remove (x ∷ xs) (suc i) = x ∷ remove xs i

-- The elements but the last.
abbrev pub but_last : List Word → List Word
but_last [] = []
but_last (x ∷ []) = []
but_last (x ∷ y ∷ xs) = x ∷ but_last (y ∷ xs)

-- Every element from an index on is overwritten by the next.
abbrev shifted : List Word → ℕ → List Word
shifted [] i = []
shifted (x ∷ []) i = x ∷ []
shifted (x ∷ y ∷ xs) zero = y ∷ shifted (y ∷ xs) zero
shifted (x ∷ y ∷ xs) (suc i) = x ∷ shifted (y ∷ xs) i

pub length-remove : (xs : List Word) (i : ℕ) → i < length xs → length (remove xs i) + 1 ≡ length xs
length-remove [] i h = absurd (omega arith)
length-remove (x ∷ xs) zero h = omega arith
length-remove (x ∷ xs) (suc i) h = omega (arith, length-remove xs i (omega arith))

length-but_last : (xs : List Word) (n : ℕ) → suc n ≡ length xs → length (but_last xs) ≡ n
length-but_last [] n e = absurd (omega arith)
length-but_last (x ∷ []) n e = omega arith
length-but_last (x ∷ y ∷ xs) zero e = absurd (omega arith)
length-but_last (x ∷ y ∷ xs) (suc n) e = ap suc (length-but_last (y ∷ xs) n (omega arith))

but_last-shifted : (xs : List Word) (i : ℕ) → i < length xs → but_last (shifted xs i) ≡ remove xs i
but_last-shifted [] i h = absurd (omega arith)
but_last-shifted (x ∷ []) zero h = refl
but_last-shifted (x ∷ []) (suc i) h = absurd (omega arith)
but_last-shifted (x ∷ y ∷ []) zero h = refl
but_last-shifted (x ∷ y ∷ z ∷ xs) zero h =
    ap (λ t. y ∷ t) (but_last-shifted (y ∷ z ∷ xs) zero (omega arith))
but_last-shifted (x ∷ y ∷ []) (suc zero) h = refl
but_last-shifted (x ∷ y ∷ []) (suc (suc i)) h = absurd (omega arith)
but_last-shifted (x ∷ y ∷ z ∷ xs) (suc zero) h =
    ap (λ t. x ∷ t) (but_last-shifted (y ∷ z ∷ xs) zero (omega arith))
but_last-shifted (x ∷ y ∷ z ∷ xs) (suc (suc i)) h =
    ap (λ t. x ∷ t) (but_last-shifted (y ∷ z ∷ xs) (suc i) (omega arith))

length-shifted : (xs : List Word) (i : ℕ) → length (shifted xs i) ≡ length xs
length-shifted [] i = refl
length-shifted (x ∷ []) i = refl
length-shifted (x ∷ y ∷ xs) zero = ap suc (length-shifted (y ∷ xs) zero)
length-shifted (x ∷ y ∷ xs) (suc i) = ap suc (length-shifted (y ∷ xs) i)

shifted_last : (xs : List Word) (i : ℕ) → suc i ≡ length xs → shifted xs i ≡ xs
shifted_last [] i e = refl
shifted_last (x ∷ []) i e = refl
shifted_last (x ∷ y ∷ xs) zero e = absurd (omega arith)
shifted_last (x ∷ y ∷ xs) (suc i) e = ap (λ t. x ∷ t) (shifted_last (y ∷ xs) i (omega arith))

shifted_step :
    (xs : List Word) (i : ℕ)
    → suc i < length xs
    → shifted (set xs i (get_or xs (suc i) 0)) (suc i) ≡ shifted xs i
shifted_step [] i h = absurd (omega arith)
shifted_step (x ∷ []) i h = absurd (omega arith)
shifted_step (x ∷ y ∷ xs) zero h = refl
shifted_step (x ∷ y ∷ []) (suc i) h = absurd (omega arith)
shifted_step (x ∷ y ∷ z ∷ xs) (suc zero) h =
    ap (λ t. x ∷ t) (shifted_step (y ∷ z ∷ xs) zero (omega arith))
shifted_step (x ∷ y ∷ z ∷ xs) (suc (suc i)) h =
    ap (λ t. x ∷ t) (shifted_step (y ∷ z ∷ xs) (suc i) (omega arith))

shift_down-shifted :
    (k : ℕ) (xs : List Word) (rest : List Cell) (i : ℕ)
    → suc (i + k) ≡ length xs
    → shift_down (cells xs ++ rest) i k ≡ ok (cells (shifted xs i) ++ rest)
unfolding shift_down
shift_down-shifted zero xs rest i e = rw (shifted_last xs i (omega arith))
shift_down-shifted (suc k) xs rest i e =
    let next : i + 1 ≡ suc i = omega arith in
    rw next (
      rw
        (
          read_cell-cells xs rest (suc i) (omega arith),
          write_cell-cells xs rest i (get_or xs (suc i) 0) (omega arith),
        )
        (rw
          (shift_down-shifted k (set xs i (get_or xs (suc i) 0)) rest (suc i)
            (omega (arith, length-set xs i (get_or xs (suc i) 0))))
          (rw (shifted_step xs i (omega arith)))))

-- Overwriting the last known cell leaves it to the rest.
set_last :
    (xs : List Word) (rest : List Cell) (c : Cell) (n : ℕ)
    → suc n ≡ length xs
    → set (cells xs ++ rest) n c ≡ cells (but_last xs) ++ c ∷ rest
set_last [] rest c n e = absurd (omega arith)
set_last (x ∷ []) rest c zero e = refl
set_last (x ∷ []) rest c (suc n) e = absurd (omega arith)
set_last (x ∷ y ∷ xs) rest c zero e = absurd (omega arith)
set_last (x ∷ y ∷ xs) rest c (suc n) e =
    ap (λ t. some x ∷ t) (set_last (y ∷ xs) rest c n (omega arith))

write_last :
    (xs : List Word) (rest : List Cell) (v : Word) (n : ℕ)
    → suc n ≡ length xs
    → write_cell (cells xs ++ rest) n v ≡ ok (cells (but_last xs) ++ some v ∷ rest)
unfolding write_cell
write_last xs rest v n e = rw (
  lt→ltb n (length (cells xs ++ rest)) (omega (arith, length-cells xs rest)),
  set_last xs rest (some v) n e,
)

-- The array that gives up its last word, over the memory that is left.
Holds-smaller :
    {a : Array} {xs : List Word} (ys : List Word) (c : Cell) (n : ℕ) (h : Holds a xs)
    → suc n ≡ length xs
    → length ys ≡ n
    → Holds (record a { data_cells = cells ys ++ c ∷ h.rest; size = n }) ys
Holds-smaller ys c n h e l = record {
  rest = c ∷ h.rest;
  layout = refl;
  size_eq = sym l;
  room = omega (arith, h.room);
  small = omega (arith, h.small);
}

-- What a removal returns, and the sequence that it leaves.
abbrev pub Removed : Word → List Word → Word × Array → Type 0
Removed v xs (w, b) = (w ≡ v) × Holds b xs

-- `array_pop` takes the last element out.
pub array_pop-last :
    {a : Array} {xs : List Word} (n : ℕ)
    → Holds a xs
    → suc n ≡ length xs
    → Returns (Removed (get_or xs n 0) (but_last xs)) (array_pop a)
unfolding array_pop
array_pop-last {a} {xs} n h e =
    let some_left : (a.size == 0) ≡ false = ground (arith, h.size_eq) in
    let last : a.size - 1 ≡ n = omega (arith, h.size_eq) in
    rw (some_left, last, read_held n h (omega arith))
      (rw (h.layout, write_last xs h.rest sn_nil n e)
        (returns (refl, Holds-smaller (but_last xs) (some sn_nil) n h e (length-but_last xs n e))))

pub array_pop-nil : {a : Array} → Holds a [] → array_pop a ≡ ok (null, a)
unfolding array_pop
array_pop-nil {a} h = rw h.size_eq

pred_u32-suc : (n : ℕ) → suc n < u32_mod → pred_u32 (suc n) ≡ n
pred_u32-suc n h = omega arith

length-pred : (xs : List Word) (i : ℕ) → i < length xs → suc (i + (length xs - suc i)) ≡ length xs
length-pred xs i h = omega arith

-- Erasing a known element shifts the rest down and gives up the last cell.
remove_in-Removed :
    {b : Array} {xs : List Word} (i : ℕ)
    → Holds b xs
    → i < length xs
    → Returns (Removed (get_or xs i 0) (remove xs i)) (remove_in b (pos i))
unfolding remove_in
remove_in-Removed {b} {xs} i h lt =
    let n : ℕ = length xs - 1 in
    let last : pred_u32 b.size ≡ n = omega (arith, h.size_eq, h.small) in
    let rounds : n - i ≡ length xs - suc i = omega arith in
    let ys : List Word = shifted xs i in
    let le : suc n ≡ length ys = omega (arith, length-shifted xs i) in
    rw (read_held i h lt, last, rounds)
      (rw (h.layout, shift_down-shifted (length xs - suc i) xs h.rest i (length-pred xs i lt))
        (rw (write_last ys h.rest null n le, but_last-shifted xs i lt)
          (returns (
            refl,
            Holds-smaller (remove xs i) (some null) n h (omega arith)
                (omega (arith, length-remove xs i)),
          ))))

-- On an array that holds a sequence `array_erase` at an index that is not negative, below 2^32 - 1,
-- takes the element at the index out and returns it; past the end it first grows the array to reach
-- the index, so that the gap stays filled with nils.
pub array_erase-remove :
    {a : Array} {xs : List Word} (i : ℕ)
    → Holds a xs
    → suc i < u32_mod
    → Returns
        (Removed (get_or (padded xs (pos i)) i 0) (remove (padded xs (pos i)) i))
        (array_erase a (pos i))
unfolding array_erase
array_erase-remove {a} {xs} i h small =
    Returns-bind (grow_past-padded i h small)
      (λ b k. rw (from_end-pos b.size i) (remove_in-Removed i k (reached i xs)))

-- From the end `array_erase` takes out an element of the array, and traps if it has too few.
pub array_erase_from_end :
    {a : Array} {xs : List Word} (n : ℕ)
    → Holds a xs
    → n < length xs
    → Returns
        (Removed (get_or xs (length xs - suc n) 0) (remove xs (length xs - suc n)))
        (array_erase a (negsuc n))
unfolding array_erase
array_erase_from_end {a} {xs} n h lt =
    rw (grow_past-negsuc a n)
      (rw (from_end-held n h lt) (remove_in-Removed (length xs - suc n) h (omega arith)))

pub array_erase-trap :
    {a : Array} {xs : List Word} (n : ℕ)
    → Holds a xs
    → length xs ≤ n
    → array_erase a (negsuc n) ≡ trap
unfolding array_erase remove_in
array_erase-trap {a} n h le =
    rw (grow_past-negsuc a n, from_end-outside a.size n (omega (arith, h.size_eq)))

-- `array_clear` leaves the empty sequence.
clear_cells-zeros :
    (xs : List Word) (rest : List Cell)
    → clear_cells (cells xs ++ rest) (length xs) ≡ ok (cells (replicate (length xs) null) ++ rest)
unfolding clear_cells fill_cells
clear_cells-zeros [] [] = refl
clear_cells-zeros [] (c ∷ rest) = refl
clear_cells-zeros (x ∷ xs) rest =
    let fits : length (x ∷ xs) ≤ length (cells (x ∷ xs) ++ rest) =
      omega (arith, length-cells xs rest) in
    fill_cells-cells null (length (x ∷ xs)) [] (cells (x ∷ xs) ++ rest) 0 refl fits
    ∙ ap (λ t. ok (cells (replicate (length (x ∷ xs)) null) ++ t)) (drop-cells (x ∷ xs) rest)

pub array_clear-nil :
    {a : Array} {xs : List Word} → Holds a xs → Returns (λ b. Holds b []) (array_clear a)
unfolding array_clear
array_clear-nil {xs} h =
    rw (h.layout, h.size_eq)
      (rw (clear_cells-zeros xs h.rest) (
        returns (record {
          rest = cells (replicate (length xs) null) ++ h.rest;
          layout = refl;
          size_eq = refl;
          room = omega (
            arith,
            h.room,
            length-cells (replicate (length xs) null) h.rest,
            length-replicate (length xs) null,
          );
          small = omega arith;
        })))
