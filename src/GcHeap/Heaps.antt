-- ===== src/GcHeap/Heaps.antt =====
-- Allocation from a list of heaps of snow/gcheap.h, and the heap of an address.
use snow.Base.{
  Bool-cases, List, Option, Option-cases, Returns, [], ap, arith, assert-true, false, inl, inr, leb,
  leb→le, length, length-append, ltb, none, ok, refl, returns, some, subst, suc, true, ℕ, ◌%◌, ◌++◌,
  ◌+◌, ◌<◌, ◌==◌, ◌∷◌, ◌≡◌, ◌≢◌, ◌≤◌, ◌⊎◌,
}
use snow.GcHeap.{
  GcHeap, bump, gc_alignment, gc_heap_alloc, gc_heap_available, gc_heap_contains, gc_heap_init,
  gc_heap_list_alloc, gc_heap_list_find_heap, list_alloc_in,
}
use snow.Array.{u32_mod}
use snow.GcHeap.Blocks.{Laid, sum, sum-append}
use snow.Value.{Word, null}

-- A heap of a list: not started, or its objects laid in its chunk.
pub record Made (h : GcHeap) : Type 0 where
  pub sizes : List ℕ
  pub laid : Laid h sizes
  pub few : suc (length sizes) < u32_mod
  pub idle : h.start ≡ null → gc_heap_available h ≡ 0

abbrev pub AllMade : List GcHeap → Type 0
AllMade [] = Unit
AllMade (h ∷ hs) = Made h × AllMade hs

-- A heap of the first list has one object more in the second, at the address and with the index.
pub data FoundIn (size : ℕ) (p : Word) (i : ℕ) : List GcHeap → List GcHeap → Type 0 where
  in_heap :
      (h g : GcHeap) (hs : List GcHeap) (sizes : List ℕ)
      → Laid h sizes
      → Laid g (sizes ++ size ∷ [])
      → g.start ≡ h.start
      → p ≡ g.start + sum sizes
      → i ≡ length sizes
      → FoundIn size p i (h ∷ hs) (g ∷ hs)
  further :
      (h : GcHeap) (hs gs : List GcHeap)
      → FoundIn size p i hs gs
      → FoundIn size p i (h ∷ hs) (h ∷ gs)

-- Where an allocation was made: in a heap that was there, or in a new one at the head, with the new chunk.
pub data PlacedIn (size : ℕ) (chunk : Word) : List GcHeap → Word × ℕ × List GcHeap → Type 0 where
  reused :
      (p : Word) (i : ℕ) (hs gs : List GcHeap)
      → FoundIn size p i hs gs
      → PlacedIn size chunk hs (p, i, gs)
  in_new :
      (g : GcHeap) (hs : List GcHeap)
      → Laid g (size ∷ [])
      → g.start ≡ chunk
      → PlacedIn size chunk hs (chunk, 0, g ∷ hs)

abbrev with_object : GcHeap → ℕ → GcHeap
with_object h size = record h {
  current = h.current + size;
  num_objects = (h.num_objects + 1) % u32_mod;
}

bump_fits :
    (h : GcHeap) (size : ℕ)
    → h.current + size ≤ h.end
    → bump h size ≡ (some (h.current, h.num_objects), with_object h size)
bump_fits h size fits =
    let room : ltb h.end (h.current + size) ≡ false = ground (arith, fits) in rw room refl

with_object-Laid :
    (h : GcHeap) (sizes : List ℕ) (size : ℕ)
    → Laid h sizes
    → suc (length sizes) < u32_mod
    → h.current + size ≤ h.end
    → Laid (with_object h size) (sizes ++ size ∷ [])
with_object-Laid h sizes size l few fits = record {
  current_eq = omega (arith, l.current_eq, sum-append sizes (size ∷ []));
  in_chunk = fits;
  num_objects_eq = omega (arith, l.num_objects_eq, length-append sizes (size ∷ []));
}

gc_heap_alloc-fits :
    (h : GcHeap) (size : ℕ) (chunk : Word) (heap_size : ℕ)
    → h.start ≢ null
    → h.current + size ≤ h.end
    → size % gc_alignment ≡ 0
    → gc_heap_alloc h size chunk heap_size
      ≡ ok (some (h.current, h.num_objects), with_object h size)
unfolding gc_heap_alloc
gc_heap_alloc-fits h size chunk heap_size real fits aligned =
    let even : (size % gc_alignment == 0) ≡ true = ground (arith, aligned) in
    let has : (h.start == null) ≡ false = ground (arith, real) in
    rw (assert-true even) (rw has (ap ok (bump_fits h size fits)))

gc_heap_alloc-new :
    (size : ℕ) (chunk : Word) (heap_size : ℕ)
    → size ≤ heap_size
    → size % gc_alignment ≡ 0
    → gc_heap_alloc gc_heap_init size chunk heap_size
      ≡ ok (
        some (chunk, 0),
        with_object
            (record gc_heap_init { start = chunk; current = chunk; end = chunk + heap_size })
            size,
      )
unfolding gc_heap_alloc
gc_heap_alloc-new size chunk heap_size fits aligned =
    let even : (size % gc_alignment == 0) ≡ true = ground (arith, aligned) in
    rw (assert-true even) (ap ok (bump_fits _ size (omega arith)))

-- The loop finds no heap with room, or allocates in the first that has room.
list_alloc_in-FoundIn :
    (hs : List GcHeap) (size : ℕ) (chunk : Word) (heap_size : ℕ)
    → AllMade hs
    → 0 < size
    → size % gc_alignment ≡ 0
    → (list_alloc_in hs size chunk heap_size ≡ none)
      ⊎ ((p : Word) × (i : ℕ) × (gs : List GcHeap) × (list_alloc_in hs size chunk heap_size
            ≡ some (ok (p, i, gs)))
          × FoundIn size p i hs gs)
unfolding list_alloc_in
list_alloc_in-FoundIn [] size chunk heap_size made some_size aligned = inl refl
list_alloc_in-FoundIn (h ∷ hs) size chunk heap_size (made, rest) some_size aligned =
    elim (Bool-cases (leb size (gc_heap_available h))) [
      | inl e ↦
          let room = leb→le _ _ e in
          let real : h.start ≢ null = λ z. absurd (omega (arith, made.idle z)) in
          let fits : h.current + size ≤ h.end = omega arith in
          inr (
            h.current,
            h.num_objects,
            with_object h size ∷ hs,
            rw (e, gc_heap_alloc-fits h size chunk heap_size real fits aligned) refl,
            in_heap h (with_object h size) hs made.sizes made.laid
                (with_object-Laid h made.sizes size made.laid made.few fits) refl
                made.laid.current_eq made.laid.num_objects_eq,
          )
      | inr e ↦ elim (list_alloc_in-FoundIn hs size chunk heap_size rest some_size aligned) [
        | inl n ↦ inl (rw (e, n) refl)
        | inr (p, i, gs, s, f) ↦ inr (p, i, h ∷ gs, rw (e, s) refl, further h hs gs f)
      ]
    ]

-- In a list of heaps whose objects lie in their chunks, an aligned allocation that is not empty and
-- fits in a chunk of the size given never fails: it is the next object of a heap of the list, or the
-- first one of a new heap at the head with the new chunk, and the other heaps stay as they are.
pub gc_heap_list_alloc-PlacedIn :
    (hs : List GcHeap) (size : ℕ) (chunk : Word) (heap_size : ℕ)
    → AllMade hs
    → 0 < size
    → size % gc_alignment ≡ 0
    → size ≤ heap_size
    → Returns (PlacedIn size chunk hs) (gc_heap_list_alloc hs size chunk heap_size)
unfolding gc_heap_list_alloc
gc_heap_list_alloc-PlacedIn hs size chunk heap_size made some_size aligned fits =
    elim (list_alloc_in-FoundIn hs size chunk heap_size made some_size aligned) [
      | inl n ↦
          rw (n, gc_heap_alloc-new size chunk heap_size fits aligned)
            (returns (
              in_new _ hs
                (record { current_eq = omega arith; in_chunk = omega arith; num_objects_eq = refl })
                refl))
      | inr (p, i, gs, s, f) ↦ rw s (returns (reused p i hs gs f))
    ]

-- The heap found is one of the list and contains the address.
pub data Contains (ptr : Word) (h : GcHeap) : List GcHeap → Type 0 where
  at_head : (hs : List GcHeap) → gc_heap_contains h ptr ≡ true → Contains ptr h (h ∷ hs)
  in_tail :
      (g : GcHeap) (hs : List GcHeap)
      → gc_heap_contains g ptr ≡ false
      → Contains ptr h hs
      → Contains ptr h (g ∷ hs)

abbrev NoneContains : Word → List GcHeap → Type 0
NoneContains ptr [] = Unit
NoneContains ptr (h ∷ hs) = (gc_heap_contains h ptr ≡ false) × NoneContains ptr hs

abbrev pub Found : Word → List GcHeap → Option GcHeap → Type 0
Found ptr hs none = NoneContains ptr hs
Found ptr hs (some h) = Contains ptr h hs

-- The search gives the first heap of the list that contains the address, and NULL only if none does.
pub gc_heap_list_find_heap-Found :
    (hs : List GcHeap) (ptr : Word) → Found ptr hs (gc_heap_list_find_heap hs ptr)
unfolding gc_heap_list_find_heap
gc_heap_list_find_heap-Found [] ptr = tt
gc_heap_list_find_heap-Found (h ∷ hs) ptr = elim (Bool-cases (gc_heap_contains h ptr)) [
  | inl e ↦ rw e (at_head hs e)
  | inr e ↦ rw e (elim (Option-cases (gc_heap_list_find_heap hs ptr)) [
    | inl n ↦ rw n (e, subst (Found ptr hs) n (gc_heap_list_find_heap-Found hs ptr))
    | inr (g, s) ↦
        rw s (in_tail h hs e (subst (Found ptr hs) s (gc_heap_list_find_heap-Found hs ptr)))
  ])
]
