-- ===== src/Gc.antt =====
-- snow/gc.h and snow/gc.c: the sizes of allocations, the bounds of the memory that the chunks of the
-- heaps take, and the heap of an address. `ptr` in `gc_alloc_chunk` is what `snow_malloc` returns.
pub mod Sizes
pub mod Chunks
pub mod Find
mod Tests
use snow.Base.{
  Bool, List, Option, if◌then◌else◌, leb, ltb, none, not, some, ℕ, ◌%◌, ◌&&◌, ◌+◌, ◌-◌, ◌==◌, ◌^◌,
  ◌||◌,
}
use snow.GcHeap.{GcHeap, gc_alignment, gc_heap_list_find_heap, head_size, tail_size}
use snow.Value.{Word, null}

abbrev pub uintx_mod : ℕ
uintx_mod = 2 ^ 64

unfoldable pub snow_gc_round : ℕ → ℕ
snow_gc_round size = (size + (gc_alignment - size % gc_alignment) % gc_alignment) % uintx_mod

abbrev pub gc_calculate_total_size : ℕ → ℕ
gc_calculate_total_size size = (size + (head_size + tail_size)) % uintx_mod

-- The bounds and the `info` of `GC`.
pub record ChunkInfo : Type 0 where
  pub lower_bound : Word
  pub upper_bound : Word
  pub allocated_size : ℕ
  pub freed_size : ℕ
  pub total_mem_usage : ℕ

-- `memset(&GC, 0, sizeof(GC))`
abbrev pub no_chunks : ChunkInfo
no_chunks = record {
  lower_bound = null;
  upper_bound = null;
  allocated_size = 0;
  freed_size = 0;
  total_mem_usage = 0;
}

unfoldable pub gc_alloc_chunk : ChunkInfo → Word → ℕ → ChunkInfo
gc_alloc_chunk c ptr size = record {
  lower_bound = if ltb ptr c.lower_bound || c.lower_bound == null then ptr else c.lower_bound;
  upper_bound = if ltb c.upper_bound (ptr + size) then ptr + size else c.upper_bound;
  allocated_size = (c.allocated_size + size) % uintx_mod;
  freed_size = c.freed_size;
  total_mem_usage = (c.total_mem_usage + size) % uintx_mod;
}

unfoldable pub gc_free_chunk : ChunkInfo → Word → ℕ → ChunkInfo
gc_free_chunk c ptr size = record {
  lower_bound = if c.lower_bound == ptr then ptr + size else c.lower_bound;
  upper_bound = if ptr + size == c.upper_bound then ptr else c.upper_bound;
  allocated_size = c.allocated_size;
  freed_size = (c.freed_size + size) % uintx_mod;
  total_mem_usage = (c.total_mem_usage + (uintx_mod - size)) % uintx_mod;
}

abbrev pub gc_maybe_contains : ChunkInfo → Word → Bool
gc_maybe_contains c root = leb c.lower_bound root && leb root c.upper_bound

-- The heaps of `GC`, the nurseries from `nursery_head` on.
pub record Gc : Type 0 where
  pub nurseries : List GcHeap
  pub adults : List GcHeap
  pub biggies : List GcHeap
  pub unkillables : List GcHeap
  pub graveyard : List GcHeap
  pub chunks : ChunkInfo

-- `if (heap) return heap;`
abbrev pub or_search : Option GcHeap → Option GcHeap → Option GcHeap
or_search none next = next
or_search (some h) next = some h

unfoldable pub gc_find_heap : Gc → Word → Option GcHeap
gc_find_heap gc root =
    if not (gc_maybe_contains gc.chunks root)
    then none
    else or_search (gc_heap_list_find_heap gc.nurseries root) (
        or_search (gc_heap_list_find_heap gc.adults root) (
          or_search (gc_heap_list_find_heap gc.biggies root) (
            or_search (gc_heap_list_find_heap gc.unkillables root)
              (gc_heap_list_find_heap gc.graveyard root))))
