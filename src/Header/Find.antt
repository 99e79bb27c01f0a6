-- ===== src/Header/Find.antt =====
-- The search for a word's object, as marking and updating do it: the heap of the word, then the start of
-- the object in it. Marking takes the search as a parameter; this is the one of the code.
use snow.Base.{List, Option, Result, false, none, ok, refl, some, ℕ, ◌+◌, ◌-◌, ◌/◌, ◌<◌, ◌≡◌, ◌≤◌}
use snow.Gc.{Gc, gc_find_heap, gc_maybe_contains}
use snow.GcHeap.{GcHeap, head_size}
use snow.Header.{ObjectStart, gc_find_object_start}
use snow.Header.Start.{IsAllocation, gc_find_object_start-inside}
use snow.Mark.{Allocation}
use snow.Mark.Everything.{Bounded}
use snow.Value.{Word}

abbrev object_found : Result ObjectStart → Option Word
object_found (ok o) = some o.object_at
object_found other = none

-- `gc_find_heap`, and `gc_find_object_start` if there is a heap
unfoldable pub find_object : (Word → ℕ) → ℕ → (ℕ → Word) → Gc → Word → Option Word
find_object popcount n m gc w = elim (gc_find_heap gc w) [
  | none ↦ none
  | some heap ↦ object_found (gc_find_object_start popcount n m gc.chunks heap w)
]

outside_none :
    (gc : Gc) (w : Word) → gc_maybe_contains gc.chunks w ≡ false → gc_find_heap gc w ≡ none
unfolding gc_find_heap
outside_none gc w e = rw e refl

-- It finds nothing outside of the bounds, as the mark phase wants it.
pub find_object-Bounded :
    (popcount : Word → ℕ) (n : ℕ) (m : ℕ → Word) (gc : Gc) (heap_of : Word → ℕ)
    (allocation_at : Word → Allocation) (all : List Word)
    → Bounded (find_object popcount n m gc) heap_of allocation_at (gc_maybe_contains gc.chunks) all
unfolding find_object
find_object-Bounded popcount n m gc heap_of allocation_at all w outside =
    rw (find_object, outside_none gc w outside) refl

-- For a word in the head or the data of an allocation of the heap that `gc_find_heap` finds for it, it
-- finds the object of that allocation.
pub find_object-inside :
    (popcount : Word → ℕ) (n : ℕ) (m : ℕ → Word) (gc : Gc) (heap : GcHeap) (p size w : Word)
    → gc_find_heap gc w ≡ some heap
    → IsAllocation popcount m gc.chunks heap p size
    → p ≤ w
    → w < p + head_size + size
    → (w - p) / 16 < n
    → find_object popcount n m gc w ≡ some (p + head_size)
unfolding find_object
find_object-inside popcount n m gc heap p size w e a lo hi enough =
    rw
      (
        find_object,
        e,
        gc_find_object_start-inside popcount m gc.chunks heap p size n w a lo hi enough,
      )
      refl
