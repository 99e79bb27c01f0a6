-- ===== src/Memory/Prefix.antt =====
-- What the cell operations do on memory that starts with known words.
use snow.Base.{
  List, [], ap, append-nil, append_assoc, arith, drop, get_or, length, length-append, length-drop,
  length-replicate, lt→ltb, ok, refl, replicate, set, some, suc, take, zero, ℕ, ◌++◌, ◌+◌, ◌-◌, ◌<◌,
  ◌∷◌, ◌≡◌, ◌≤◌,
}
use snow.Value.{Word}
use snow.Memory.{Cell, blob, copy_cells, fill_cells, read_cell, write_cell}

-- The initialised cells that hold the words.
abbrev pub cells : List Word → List Cell
cells [] = []
cells (x ∷ xs) = some x ∷ cells xs

pub length-cells :
    (xs : List Word) (rest : List Cell) → length (cells xs ++ rest) ≡ length xs + length rest
length-cells [] rest = omega arith
length-cells (x ∷ xs) rest = omega (arith, length-cells xs rest)

pub read_cell-cells :
    (xs : List Word) (rest : List Cell) (i : ℕ)
    → i < length xs
    → read_cell (cells xs ++ rest) i ≡ ok (get_or xs i 0)
unfolding read_cell
read_cell-cells [] rest i h = absurd (omega arith)
read_cell-cells (x ∷ xs) rest zero h = refl
read_cell-cells (x ∷ xs) rest (suc i) h = read_cell-cells xs rest i (omega arith)

pub set-cells :
    (xs : List Word) (rest : List Cell) (i : ℕ) (v : Word)
    → i < length xs
    → set (cells xs ++ rest) i (some v) ≡ cells (set xs i v) ++ rest
set-cells [] rest i v h = absurd (omega arith)
set-cells (x ∷ xs) rest zero v h = refl
set-cells (x ∷ xs) rest (suc i) v h = ap (λ t. some x ∷ t) (set-cells xs rest i v (omega arith))

pub write_cell-cells :
    (xs : List Word) (rest : List Cell) (i : ℕ) (v : Word)
    → i < length xs
    → write_cell (cells xs ++ rest) i v ≡ ok (cells (set xs i v) ++ rest)
unfolding write_cell
write_cell-cells xs rest i v h = rw (
  lt→ltb i (length (cells xs ++ rest)) (omega (arith, length-cells xs rest)),
  set-cells xs rest i v h,
)

-- A write just behind the known words makes one more known.
pub write_cell_next :
    (xs : List Word) (rest : List Cell) (i : ℕ) (v : Word)
    → i ≡ length xs
    → 0 < length rest
    → write_cell (cells xs ++ rest) i v ≡ ok (cells (xs ++ v ∷ []) ++ drop 1 rest)
unfolding write_cell
write_cell_next xs rest i v e h =
    rw (lt→ltb i (length (cells xs ++ rest)) (omega (arith, length-cells xs rest)))
      (ap ok (rw e (go xs rest h)))
  where
    go :
        (xs : List Word) (rest : List Cell)
        → 0 < length rest
        → set (cells xs ++ rest) (length xs) (some v) ≡ cells (xs ++ v ∷ []) ++ drop 1 rest
    go [] [] h = absurd (omega arith)
    go [] (c ∷ rest) h = refl
    go (x ∷ xs) rest h = ap (λ t. some x ∷ t) (go xs rest h)

drop-drop_one {ℓ} : {A : Type ℓ} (k : ℕ) (xs : List A) → drop k (drop 1 xs) ≡ drop (suc k) xs
drop-drop_one zero [] = refl
drop-drop_one (suc k) [] = refl
drop-drop_one k (x ∷ xs) = refl

pub fill_cells-cells :
    (v : Word) (k : ℕ) (xs : List Word) (rest : List Cell) (i : ℕ)
    → i ≡ length xs
    → k ≤ length rest
    → fill_cells v (cells xs ++ rest) i k ≡ ok (cells (xs ++ replicate k v) ++ drop k rest)
unfolding fill_cells
fill_cells-cells v zero xs rest i e h = rw append-nil
fill_cells-cells v (suc k) xs rest i e h = rw (write_cell_next xs rest i v e (omega arith)) (
    rw
      (fill_cells-cells v k (xs ++ v ∷ []) (drop 1 rest) (i + 1)
        (omega (arith, length-append xs (v ∷ []))) (omega (arith, length-drop 1 rest)))
      (rw (append_assoc, drop-drop_one) refl))

pub take-cells :
    (xs : List Word) (rest : List Cell) → take (length xs) (cells xs ++ rest) ≡ cells xs
take-cells [] rest = refl
take-cells (x ∷ xs) rest = ap (λ t. some x ∷ t) (take-cells xs rest)

pub drop-cells : (xs : List Word) (rest : List Cell) → drop (length xs) (cells xs ++ rest) ≡ rest
drop-cells [] rest = refl
drop-cells (x ∷ xs) rest = drop-cells xs rest

pub copy_cells-cells :
    (dst rest : List Cell) (xs : List Word) (n : ℕ)
    → n ≡ length xs
    → n ≤ length dst
    → copy_cells dst (cells xs ++ rest) n ≡ ok (cells xs ++ drop n dst)
unfolding copy_cells
copy_cells-cells dst rest xs n e h = ground (arith, length-cells xs rest, take-cells xs rest)

pub length-blob : (n : ℕ) → length (blob n) ≡ n
length-blob n = length-replicate n _

pub length-drop-blob : (k n : ℕ) → length (drop k (blob n)) ≡ n - k
length-drop-blob k n = omega (arith, length-drop k (blob n), length-blob n)
