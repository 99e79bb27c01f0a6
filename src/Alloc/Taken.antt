-- ===== src/Alloc/Taken.antt =====
-- The next place of a nursery (`gc_heap_alloc` as gc_alloc calls it), whatever it counts.
use snow.Base.{
  Bool-cases, List, Option, Returns, [], arith, assert-true, false, inl, inr, ltb, ltb→lt, none,
  refl, returns, some, true, ℕ, ◌%◌, ◌++◌, ◌+◌, ◌<◌, ◌==◌, ◌∷◌, ◌≡◌, ◌≤◌,
}
use snow.Alloc.{Allocator, alloc_again, gc_nursery_size}
use snow.Array.{u32_mod}
use snow.GcHeap.{GcHeap, bump, gc_alignment, gc_heap_alloc, with_chunk}
use snow.GcHeap.Blocks.{sum, sum-append}
use snow.Value.{Word, null}

-- Objects of these sizes lie one behind the other in the chunk, whatever the count of objects is: a
-- collection leaves it as it was.
pub record Packed (h : GcHeap) (sizes : List ℕ) : Type 0 where
  pub current_eq : h.current ≡ h.start + sum sizes
  pub in_chunk : h.current ≤ h.end

-- The objects of a nursery, if it has a chunk.
pub record Ready (h : GcHeap) : Type 0 where
  pub sizes : List ℕ
  pub packed : Packed h sizes
  pub unused : h.start ≡ null → sizes ≡ []

-- The place is the next one behind objects of these sizes, and the index is the count of objects of the
-- heap that gave it.
pub record Taken (old : GcHeap) (before : List ℕ) (total_size : ℕ) (ptr : Word) (index : ℕ)
    (h : GcHeap) : Type 0 where
  pub packed_after : Packed h (before ++ total_size ∷ [])
  pub ptr_eq : ptr ≡ h.start + sum before
  pub index_eq : index ≡ old.num_objects
  pub counted : h.num_objects ≡ (index + 1) % u32_mod

-- Either a heap with its chunk had no room and stays as it was, or the place is taken.
abbrev pub TakenIf : (old h : GcHeap) → List ℕ → ℕ → Option (Word × ℕ) × GcHeap → Type 0
TakenIf old h before total_size (none, g) = (g ≡ h) × (h.end < h.current + total_size)
TakenIf old h before total_size (some (ptr, index), g) = Taken old before total_size ptr index g

pub with_chunk-Packed :
    (h : GcHeap) (chunk : Word) (heap_size : ℕ) (r : Ready h)
    → Packed (with_chunk h chunk heap_size) r.sizes
with_chunk-Packed h chunk heap_size r = elim (Bool-cases (h.start == null)) [
  | inl e ↦
      let none_yet = r.unused (ground (arith, e)) in
      rw e (record { current_eq = rw none_yet (omega arith); in_chunk = omega arith })
  | inr e ↦ rw e r.packed
]

with_chunk-num_objects :
    (h : GcHeap) (chunk : Word) (heap_size : ℕ)
    → (with_chunk h chunk heap_size).num_objects ≡ h.num_objects
with_chunk-num_objects h chunk heap_size = ground arith

bump-TakenIf :
    (old h : GcHeap) (sizes : List ℕ) (total_size : ℕ)
    → Packed h sizes
    → h.num_objects ≡ old.num_objects
    → TakenIf old h sizes total_size (bump h total_size)
bump-TakenIf old h sizes total_size p same =
    elim (Bool-cases (ltb h.end (h.current + total_size))) [
      | inl e ↦ rw e (refl, ltb→lt _ _ e)
      | inr e ↦ rw e (record {
        packed_after = record {
          current_eq = omega (arith, p.current_eq, sum-append sizes (total_size ∷ []));
          in_chunk = ground (arith, e);
        };
        ptr_eq = p.current_eq;
        index_eq = same;
        counted = refl;
      })
    ]

pub gc_heap_alloc-TakenIf :
    (h : GcHeap) (total_size : ℕ) (chunk : Word) (heap_size : ℕ) (r : Ready h)
    → total_size % gc_alignment ≡ 0
    → Returns
        (TakenIf h (with_chunk h chunk heap_size) r.sizes total_size)
        (gc_heap_alloc h total_size chunk heap_size)
unfolding gc_heap_alloc
gc_heap_alloc-TakenIf h total_size chunk heap_size r aligned =
    let even : (total_size % gc_alignment == 0) ≡ true = ground (arith, aligned) in
    rw (assert-true even) (
      returns (
        bump-TakenIf h (with_chunk h chunk heap_size) r.sizes total_size
          (with_chunk-Packed h chunk heap_size r) (with_chunk-num_objects h chunk heap_size)))

abbrev pub TakenIn : GcHeap → List ℕ → ℕ → Word × ℕ × Allocator → Type 0
TakenIn old before total_size (ptr, index, b) = Taken old before total_size ptr index b.nursery

-- In a nursery without a chunk the object is the first one of the new chunk.
pub alloc_again-Taken :
    (total_size : ℕ) (chunk : Word) (a : Allocator)
    → a.nursery.start ≡ null
    → total_size % gc_alignment ≡ 0
    → total_size ≤ gc_nursery_size
    → Returns (TakenIn a.nursery [] total_size) (alloc_again total_size chunk a)
unfolding alloc_again gc_heap_alloc
alloc_again-Taken total_size chunk a no_chunk aligned fits =
    let room : ltb (chunk + gc_nursery_size) (chunk + total_size) ≡ false = ground (arith, fits) in
    rw (aligned, no_chunk, room)
      (returns (record {
        packed_after = record { current_eq = omega arith; in_chunk = omega arith };
        ptr_eq = omega arith;
        index_eq = refl;
        counted = refl;
      }))
