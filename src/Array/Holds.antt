-- ===== src/Array/Holds.antt =====
-- The sequence of words that an array stands for, and the facts of memory behind it.
use snow.Base.{
  Bool-cases, List, [], append_assoc, arith, get_or, if◌then◌else◌, inl, inr, length, length-append,
  length-replicate, ltb, negsuc, pos, refl, replicate, set, suc, zero, ℕ, ℤ, ◌++◌, ◌+◌, ◌-◌, ◌<◌,
  ◌==◌, ◌∷◌, ◌≡◌, ◌≤◌,
}
use snow.Value.{Word, null, sn_nil}
use snow.Memory.{Cell, blob}
use snow.Memory.Prefix.{cells, length-blob}
use snow.Array.{Array, array_init, array_init_with_size, create_array_with_size, u32_mod}

-- The first `size` cells are initialised and hold `xs`; the capacity is really there.
pub record Holds (a : Array) (xs : List Word) : Type 0 where
  pub rest : List Cell
  pub layout : a.data_cells ≡ cells xs ++ rest
  pub size_eq : a.size ≡ length xs
  pub room : a.alloc_size ≤ length xs + length rest
  pub small : length xs < u32_mod

-- What an element is from outside: NULL where there is none, negative indices from the end.
abbrev pub element : List Word → ℤ → Word
element xs (pos i) = get_or xs i null
element xs (negsuc n) = if ltb n (length xs) then get_or xs (length xs - suc n) null else null

-- The sequence after a write at an index that is not negative: nil fills the gap.
abbrev pub put : List Word → ℕ → Word → List Word
put xs i v =
    if ltb i (length xs) then set xs i v else xs ++ (replicate (i - length xs) sn_nil ++ v ∷ [])

pub array_init-Holds : Holds array_init []
array_init-Holds = record {
  rest = [];
  layout = refl;
  size_eq = refl;
  room = omega arith;
  small = omega arith;
}

pub create_array_with_size-Holds : (n : ℕ) → Holds (create_array_with_size n) []
create_array_with_size-Holds n = elim (Bool-cases (n == 0)) [
  | inl e ↦ rw e (empty 8)
  | inr e ↦ rw e (empty n)
]
  where
    empty : (n : ℕ) → Holds (array_init_with_size n) []
    empty n = record {
      rest = blob n;
      layout = refl;
      size_eq = refl;
      room = omega (arith, length-blob n);
      small = omega arith;
    }

pub put-set : (xs : List Word) (i : ℕ) (v : Word) → i < length xs → put xs i v ≡ set xs i v
put-set xs i v h = ground arith

get_or-append_end :
    (xs : List Word) (k : ℕ) (v : Word) → k ≡ length xs → get_or (xs ++ v ∷ []) k null ≡ v
get_or-append_end [] zero v e = refl
get_or-append_end [] (suc k) v e = absurd (omega arith)
get_or-append_end (x ∷ xs) zero v e = absurd (omega arith)
get_or-append_end (x ∷ xs) (suc k) v e = get_or-append_end xs k v (omega arith)

get_or-set_self :
    (xs : List Word) (i : ℕ) (v : Word) → i < length xs → get_or (set xs i v) i null ≡ v
get_or-set_self [] i v h = absurd (omega arith)
get_or-set_self (x ∷ xs) zero v h = refl
get_or-set_self (x ∷ xs) (suc i) v h = get_or-set_self xs i v (omega arith)

-- A word that was put is there.
pub get_or-put : (xs : List Word) (i : ℕ) (v : Word) → get_or (put xs i v) i null ≡ v
get_or-put xs i v = elim (Bool-cases (ltb i (length xs))) [
  | inl within ↦ rw within (get_or-set_self xs i v (ground arith))
  | inr beyond ↦
      let pad = replicate (i - length xs) sn_nil in
      rw (beyond, ← append_assoc xs pad (v ∷ []))
        (get_or-append_end (xs ++ pad) i v
          (ground (arith, length-append xs pad, length-replicate (i - length xs) sn_nil)))
]
