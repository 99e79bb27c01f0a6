-- ===== src/GcHeap/Flags.antt =====
-- The flags of the objects of a heap of snow/gcheap.h, kept as one byte each in memory that grows.
use snow.Base.{
  ==_iff, Bool-cases, List, Returns, Returns-bind, Returns-mono, [], ap, append-nil, arith,
  assert-true, drop, false, get_or, get_or-beyond, if◌then◌else◌, inl, inr, length, length-append,
  length-replicate, length-set, ltb, ltb→lt, lt→ltb, none, ok, refl, replicate, returns, set, some,
  subst, suc, sym, take_all, zero, ℕ, ◌%◌, ◌*◌, ◌++◌, ◌-◌, ◌<◌, ◌==◌, ◌∙◌, ◌∷◌, ◌≡◌, ◌≤◌, ◌⊎◌,
}
use snow.GcHeap.{GcHeap, gc_heap_get_flags, gc_heap_set_flags, grow_flags, or_flags, realloc_bytes}
use snow.Memory.Prefix.{
  cells, fill_cells-cells, length-blob, length-cells, read_cell-cells, write_cell-cells,
}
use Prim.Native.Nat.{bit_or}
use snow.Array.{u32_mod}
use snow.Memory.{blob, read_cell, write_cell}
use snow.Value.{Word}

-- The flag bytes are known, as many as the heap counts, and the counters do not wrap.
pub record Flagged (h : GcHeap) (fs : List Word) : Type 0 where
  pub bytes : (h.flag_bytes ≡ some (cells fs)) ⊎ ((h.flag_bytes ≡ none) × (fs ≡ []))
  pub num_flags_eq : h.num_flags ≡ length fs
  pub small : 2 * h.num_objects < u32_mod

-- The flags of an object; one that has no byte yet has none.
abbrev pub flags_of : List Word → ℕ → Word
flags_of fs i = get_or fs i 0

realloc_bytes-cells :
    (h : GcHeap) (fs : List Word) (n : ℕ)
    → Flagged h fs
    → length fs ≤ n
    → realloc_bytes h.flag_bytes n ≡ cells fs ++ blob (n - length fs)
realloc_bytes-cells h fs n f le = elim f.bytes [
  | inl e ↦
      let whole : length (cells fs) ≡ length fs =
        omega (arith, length-cells fs [], length-append (cells fs) []) in
      rw (e, take_all n (cells fs) (omega arith), whole) refl
  | inr (e, z) ↦ let whole : n - 0 ≡ n = omega arith in rw (e, z) (rw whole refl)
]

drop-blob : (k : ℕ) → drop k (blob k) ≡ []
drop-blob zero = refl
drop-blob (suc k) = drop-blob k

grow_flags-Flagged :
    (h : GcHeap) (fs : List Word)
    → Flagged h fs
    → Returns
        (λ g.
          Flagged g (fs ++ replicate (g.num_flags - length fs) 0)
          × (g.num_objects ≤ g.num_flags)
          × (g.num_objects ≡ h.num_objects)
          × (length fs ≤ g.num_flags))
        (grow_flags h)
unfolding grow_flags
grow_flags-Flagged h fs f = elim (Bool-cases (ltb h.num_flags h.num_objects)) [
  | inl e ↦
      let num : ℕ = (2 * h.num_objects) % u32_mod in
      let num_eq : num ≡ 2 * h.num_objects = omega (arith, f.small) in
      let more : h.num_flags < h.num_objects = ltb→lt _ _ e in
      let count = f.num_flags_eq in
      let gap : num - h.num_flags ≡ num - length fs = omega (arith, count) in
      rw (e, realloc_bytes-cells h fs num f (omega arith))
        (rw
          (fill_cells-cells 0 (num - h.num_flags) fs (blob (num - length fs)) h.num_flags count
            (omega (arith, length-blob (num - length fs))))
          (returns (
            record {
              bytes = inl (ap some (rw (gap, drop-blob (num - length fs), append-nil) refl));
              num_flags_eq = omega (
                arith,
                length-append fs (replicate (num - length fs) 0),
                length-replicate {A = ℕ} (num - length fs) 0,
              );
              small = f.small;
            },
            omega arith,
            refl,
            omega arith,
          )))
  | inr e ↦
      let gap : h.num_flags - length fs ≡ 0 = omega (arith, f.num_flags_eq) in
      let none_new : Flagged h (fs ++ replicate (h.num_flags - length fs) 0) =
        rw (gap, append-nil) f in
      rw e (returns (none_new, ground (arith, e), refl, omega (arith, f.num_flags_eq)))
]

get_or-zeros : (xs : List Word) (n i : ℕ) → get_or (xs ++ replicate n 0) i 0 ≡ get_or xs i 0
get_or-zeros [] zero i = refl
get_or-zeros [] (suc n) zero = refl
get_or-zeros [] (suc n) (suc i) = get_or-zeros [] n i ∙ sym (get_or-beyond [] i 0 (omega arith))
get_or-zeros (x ∷ xs) n zero = refl
get_or-zeros (x ∷ xs) n (suc i) = get_or-zeros xs n i

get_or-set :
    (xs : List Word) (i j : ℕ) (v : Word)
    → i < length xs
    → get_or (set xs i v) j 0 ≡ (if j == i then v else get_or xs j 0)
get_or-set [] i j v h = absurd (omega arith)
get_or-set (x ∷ xs) zero zero v h = refl
get_or-set (x ∷ xs) zero (suc j) v h =
    let other : (suc j == 0) ≡ false = ground arith in rw other refl
get_or-set (x ∷ xs) (suc i) zero v h =
    let other : (0 == suc i) ≡ false = ground arith in rw other refl
get_or-set (x ∷ xs) (suc i) (suc j) v h =
    let same : (suc j == suc i) ≡ (j == i) = ground arith in
    rw same (get_or-set xs i j v (omega arith))

read_bytes : (fs : List Word) (i : ℕ) → i < length fs → read_cell (cells fs) i ≡ ok (get_or fs i 0)
read_bytes fs i lt =
    let whole : cells fs ++ [] ≡ cells fs = append-nil _ in
    subst (λ d. read_cell d i ≡ ok (get_or fs i 0)) whole (read_cell-cells fs [] i lt)

write_bytes :
    (fs : List Word) (i : ℕ) (v : Word)
    → i < length fs
    → write_cell (cells fs) i v ≡ ok (cells (set fs i v))
write_bytes fs i v lt =
    let whole : cells fs ++ [] ≡ cells fs = append-nil _ in
    let whole_after : cells (set fs i v) ++ [] ≡ cells (set fs i v) = append-nil _ in
    subst (λ d. write_cell d i v ≡ ok (cells (set fs i v))) whole
      (write_cell-cells fs [] i v lt ∙ ap ok whole_after)

or_flags-set :
    (h : GcHeap) (fs : List Word) (i : ℕ) (flags : Word)
    → Flagged h fs
    → i < length fs
    → Returns
        (λ g.
          Flagged g (set fs i (bit_or (get_or fs i 0) flags))
          × (g.num_objects ≡ h.num_objects)
          × (g.num_flags ≡ h.num_flags))
        (or_flags h i flags)
unfolding or_flags
or_flags-set h fs i flags f lt = elim f.bytes [
  | inl e ↦
      let read = read_bytes fs i lt in
      let written = write_bytes fs i (bit_or (get_or fs i 0) flags) lt in
      rw (e, read, written)
        (returns (
          record {
            bytes = inl refl;
            num_flags_eq =
                omega (arith, f.num_flags_eq, length-set fs i (bit_or (get_or fs i 0) flags));
            small = f.small;
          },
          refl,
          refl,
        ))
  | inr (e, z) ↦ absurd (let zero_length : length fs ≡ 0 = ap length z in omega arith)
]

marked :
    (fs : List Word) (i k : ℕ) (flags : Word)
    → (if i == k then bit_or (get_or fs k 0) flags else get_or fs i 0)
      ≡ (if i == k then bit_or (flags_of fs i) flags else flags_of fs i)
marked fs i k flags = elim (Bool-cases (i == k)) [
  | inl e ↦ let same : i ≡ k = (==_iff i k).0 e in rw (e, same) refl
  | inr e ↦ rw e refl
]

-- The flags after a set: the object has the new ones besides its own, the others have what they had.
pub record Marked (h : GcHeap) (fs : List Word) (flag_index : ℕ) (flags : Word) (g : GcHeap)
    : Type 0 where
  pub after : List Word
  pub flagged : Flagged g after
  pub same_objects : g.num_objects ≡ h.num_objects
  pub enough : g.num_objects ≤ g.num_flags
  pub now :
      (i : ℕ)
      → flags_of after i ≡ (if i == flag_index then bit_or (flags_of fs i) flags else flags_of fs i)

-- Setting flags of an object of a heap whose flag bytes are known, with fewer than 2^31 objects, never
-- touches memory out of bounds or unwritten bytes, adds the flags to the object's own, and changes no
-- other object's flags, whether the bytes had to grow or not.
pub gc_heap_set_flags-Marked :
    (h : GcHeap) (fs : List Word) (flag_index : ℕ) (flags : Word)
    → Flagged h fs
    → flag_index < h.num_objects
    → Returns (Marked h fs flag_index flags) (gc_heap_set_flags h flag_index flags)
unfolding gc_heap_set_flags
gc_heap_set_flags-Marked h fs flag_index flags f lt =
    rw (assert-true (lt→ltb flag_index h.num_objects lt)) (
      Returns-bind (grow_flags-Flagged h fs f) (λ g (fg, enough, same, le).
        let grown = fs ++ replicate (g.num_flags - length fs) 0 in
        let inside : flag_index < length grown = omega (arith, fg.num_flags_eq) in
        Returns-mono (or_flags-set g grown flag_index flags fg inside) (λ k (fk, objects, bytes).
          record {
            after = set grown flag_index (bit_or (get_or grown flag_index 0) flags);
            flagged = fk;
            same_objects = objects ∙ same;
            enough = omega arith;
            now = λ i.
                get_or-set grown flag_index i _ inside
                ∙ rw
                    (
                      get_or-zeros fs (g.num_flags - length fs) i,
                      get_or-zeros fs (g.num_flags - length fs) flag_index,
                    )
                    (marked fs i flag_index flags);
          })))

-- The flags of an object of the heap can be read when no bytes are kept yet, or since flags were set.
pub gc_heap_get_flags-flags_of :
    (h : GcHeap) (fs : List Word) (flag_index : ℕ)
    → Flagged h fs
    → flag_index < h.num_objects
    → (h.num_objects ≤ h.num_flags) ⊎ (h.flag_bytes ≡ none)
    → gc_heap_get_flags h flag_index ≡ ok (flags_of fs flag_index)
unfolding gc_heap_get_flags
gc_heap_get_flags-flags_of h fs i f lt enough =
    rw (assert-true (lt→ltb i h.num_objects lt)) (elim f.bytes [
      | inl e ↦ rw e elim (Bool-cases (ltb i (length fs))) [
        | inl p ↦ read_bytes fs i (ltb→lt _ _ p)
        | inr p ↦ absurd (elim enough [
          | inl le ↦ ground (arith, p, f.num_flags_eq)
          | inr z ↦ ground (arith, z, e)
        ])
      ]
      | inr (e, z) ↦ rw (e, z) refl
    ])
