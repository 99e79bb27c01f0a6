-- ===== src/Alloc.antt =====
-- snow/gc.c: allocation of objects, blobs and atomic memory, and what can be asked of and set in an
-- allocation later. The nursery is that of the task. `chunk` is what `gc_alloc_chunk` returns if a heap
-- needs one; the collection is a parameter. There is one thread, so `snow_gc_barrier` is left out.
pub mod Placed
pub mod Taken
pub mod Sized
mod Tests
use snow.Base.{
  List, Option, Result, assert, if◌then◌else◌, ltb, none, not, ok, some, trap, ℕ, ◌+◌, ◌==◌, ◌>>=◌,
  ◌>>◌,
}
use snow.Gc.{ChunkInfo, gc_calculate_total_size, snow_gc_round}
use snow.GcHeap.{GcHeap, gc_heap_alloc, gc_heap_list_alloc}
use snow.Header.{ObjectStart, gc_find_object_start, gc_init_allocation, info_size, store}
use snow.Mark.{AllocType, gc_atomic, gc_blob, gc_object}
use snow.Value.{Word, null}

abbrev pub gc_nursery_size : ℕ
gc_nursery_size = 1048576

abbrev pub gc_big_allocation_size_limit : ℕ
gc_big_allocation_size_limit = 4096

-- The part of `GC` that allocation changes, with the memory.
pub record Allocator : Type 0 where
  pub nursery : GcHeap
  pub big_heaps : List GcHeap
  pub memory : ℕ → Word
  pub total_objects : ℕ

-- An allocation by address and index, with the allocator that it leaves.
abbrev pub alloc_big : ℕ → Word → Allocator → Result (Word × ℕ × Allocator)
alloc_big total_size chunk a = do
  (ptr, index, heaps) ← gc_heap_list_alloc a.big_heaps total_size chunk total_size
  assert (not (ptr == 0))
  ok (ptr, index, record a { big_heaps = heaps })

-- The second call of `gc_heap_alloc`, and `ASSERT(ptr)`
unfoldable pub alloc_again : ℕ → Word → Allocator → Result (Word × ℕ × Allocator)
alloc_again total_size chunk a = do
  (found, h) ← gc_heap_alloc a.nursery total_size chunk gc_nursery_size
  elim found [ none ↦ trap | some (ptr, index) ↦ ok (ptr, index, record a { nursery = h }) ]

module _ (popcount : Word → ℕ) (collect : Allocator → Result Allocator) (chunk : Word) where
  unfoldable pub alloc_small : ℕ → Allocator → Result (Word × ℕ × Allocator)
  alloc_small total_size a = do
    (found, h) ← gc_heap_alloc a.nursery total_size chunk gc_nursery_size
    elim found [
      | none ↦ collect (record a { nursery = h }) >>= alloc_again total_size chunk
      | some (ptr, index) ↦ ok (ptr, index, record a { nursery = h })
    ]

  -- `gc_init_allocation` at what was found, and `++GC.stats.total`
  unfoldable pub initialized : ℕ → AllocType → Word × ℕ × Allocator → Word × Allocator
  initialized rounded_size t (ptr, index, a) =
      let (object, m) = gc_init_allocation popcount a.memory ptr rounded_size t index null in
      (object, record a { memory = m; total_objects = a.total_objects + 1 })

  unfoldable pub gc_alloc : ℕ → AllocType → Allocator → Result (Word × Allocator)
  gc_alloc size t a =
      let rounded_size = snow_gc_round size in
      let total_size = gc_calculate_total_size rounded_size in
      (do
        assert (not (size == 0))
        found ←
            if ltb gc_big_allocation_size_limit total_size
            then alloc_big total_size chunk a
            else alloc_small total_size a
        ok (initialized rounded_size t found))

  abbrev pub snow_gc_alloc_object : ℕ → Allocator → Result (Word × Allocator)
  snow_gc_alloc_object size a = gc_alloc size gc_object a

  abbrev pub snow_gc_alloc_blob : ℕ → Allocator → Result (Word × Allocator)
  snow_gc_alloc_blob size a = gc_alloc size gc_blob a

  abbrev pub snow_gc_alloc_atomic : ℕ → Allocator → Result (Word × Allocator)
  snow_gc_alloc_atomic size a = gc_alloc size gc_atomic a

-- `find` is `gc_find_heap`; the fuel is that of `gc_find_object_start`.
module _ (popcount : Word → ℕ) (n : ℕ) (c : ChunkInfo) (find : Word → Option GcHeap) where
  -- `ASSERT(heap)`, then the search for the start
  unfoldable pub start_of : (ℕ → Word) → Word → Result ObjectStart
  start_of m p = elim (find p) [
    | none ↦ trap
    | some heap ↦ gc_find_object_start popcount n m c heap p
  ]

  unfoldable pub snow_gc_set_free_func : (ℕ → Word) → Word → Word → Result (ℕ → Word)
  snow_gc_set_free_func m p free_func = do o ← start_of m p; ok (store m o.meta_info_at free_func)

  unfoldable pub snow_gc_allocated_size : (ℕ → Word) → Word → Result ℕ
  snow_gc_allocated_size m p = do o ← start_of m p; ok (info_size (m o.alloc_info_at))
