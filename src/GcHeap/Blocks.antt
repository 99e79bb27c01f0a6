-- ===== src/GcHeap/Blocks.antt =====
-- The objects of a heap of snow/gcheap.h lie one behind the other in its chunk.
use snow.Base.{
  Bool-cases, List, Option, Returns, [], arith, assert-true, inl, inr, length, length-append, ltb,
  ltb→lt, none, refl, returns, some, suc, true, ℕ, ◌%◌, ◌++◌, ◌+◌, ◌<◌, ◌==◌, ◌∷◌, ◌≡◌, ◌≢◌, ◌≤◌,
}
use snow.GcHeap.{
  GcHeap, bump, gc_alignment, gc_heap_alloc, gc_heap_contains, gc_heap_init, head_size, tail_size,
  with_chunk,
}
use snow.Array.{u32_mod}
use snow.Value.{Word, null}

abbrev pub sum : List ℕ → ℕ
sum [] = 0
sum (x ∷ xs) = x + sum xs

pub sum-append : (xs ys : List ℕ) → sum (xs ++ ys) ≡ sum xs + sum ys
sum-append [] ys = omega arith
sum-append (x ∷ xs) ys = omega (arith, sum-append xs ys)

-- Objects of these sizes lie one behind the other from the start of the chunk.
pub record Laid (h : GcHeap) (sizes : List ℕ) : Type 0 where
  pub current_eq : h.current ≡ h.start + sum sizes
  pub in_chunk : h.current ≤ h.end
  pub num_objects_eq : h.num_objects ≡ length sizes

pub gc_heap_init-Laid : Laid gc_heap_init []
gc_heap_init-Laid = record { current_eq = refl; in_chunk = omega arith; num_objects_eq = refl }

-- What an allocation gives: NULL and no change if the chunk has no room, else the next place and index.
abbrev pub Allotted : List ℕ → ℕ → Option (Word × ℕ) × GcHeap → Type 0
Allotted sizes total_size (none, h) = Laid h sizes × (h.end < h.current + total_size)
Allotted sizes total_size (some (p, i), h) =
    Laid h (sizes ++ total_size ∷ []) × (p ≡ h.start + sum sizes) × (i ≡ length sizes)

with_chunk-Laid :
    (h : GcHeap) (sizes : List ℕ) (chunk : Word) (heap_size : ℕ)
    → Laid h sizes
    → (h.start ≡ null → sizes ≡ [])
    → Laid (with_chunk h chunk heap_size) sizes
with_chunk-Laid h sizes chunk heap_size l fresh = elim (Bool-cases (h.start == null)) [
  | inl e ↦
      let none_yet = fresh (ground (arith, e)) in
      rw e (record {
        current_eq = rw none_yet (omega arith);
        in_chunk = omega arith;
        num_objects_eq = l.num_objects_eq;
      })
  | inr e ↦ rw e l
]

bump-Allotted :
    (h : GcHeap) (sizes : List ℕ) (total_size : ℕ)
    → Laid h sizes
    → suc (length sizes) < u32_mod
    → Allotted sizes total_size (bump h total_size)
bump-Allotted h sizes total_size l few = elim (Bool-cases (ltb h.end (h.current + total_size))) [
  | inl e ↦ rw e (l, ltb→lt _ _ e)
  | inr e ↦ rw e (
    record {
      current_eq = omega (arith, l.current_eq, sum-append sizes (total_size ∷ []));
      in_chunk = ground (arith, e);
      num_objects_eq = omega (arith, l.num_objects_eq, length-append sizes (total_size ∷ []));
    },
    l.current_eq,
    l.num_objects_eq,
  )
]

-- On a heap whose objects lie one behind the other in its chunk, and without objects if it has no
-- chunk, an aligned allocation never traps: it gives the next place behind the objects and the next
-- index, or NULL and the objects as they were if the chunk has no room, as long as the number of
-- objects fits 32 bits.
pub gc_heap_alloc-Allotted :
    (h : GcHeap) (sizes : List ℕ) (total_size : ℕ) (chunk : Word) (heap_size : ℕ)
    → Laid h sizes
    → (h.start ≡ null → sizes ≡ [])
    → total_size % gc_alignment ≡ 0
    → suc (length sizes) < u32_mod
    → Returns (Allotted sizes total_size) (gc_heap_alloc h total_size chunk heap_size)
unfolding gc_heap_alloc
gc_heap_alloc-Allotted h sizes total_size chunk heap_size l fresh aligned few =
    let even : (total_size % gc_alignment == 0) ≡ true = ground (arith, aligned) in
    rw (assert-true even) (
      returns (
        bump-Allotted (with_chunk h chunk heap_size) sizes total_size
          (with_chunk-Laid h sizes chunk heap_size l fresh) few))

-- A heap with a chunk contains the addresses of an object's data, between its head and its tail.
pub gc_heap_contains-data :
    (h : GcHeap) (before after : List ℕ) (size : ℕ) (root : Word)
    → Laid h (before ++ size ∷ after)
    → h.start ≢ null
    → h.start + sum before + head_size ≤ root
    → root + tail_size < h.start + sum before + size
    → gc_heap_contains h root ≡ true
unfolding gc_heap_contains
gc_heap_contains-data h before after size root l real above below =
    let total = sum-append before (size ∷ after) in
    let top : root + tail_size < h.end = omega (arith, l.current_eq, l.in_chunk, total) in
    let bottom : h.start + head_size ≤ root = omega arith in ground (arith, real, top, bottom)
