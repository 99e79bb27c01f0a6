-- ===== src/Gc/Tests.antt =====
-- Tests of sizes, chunks and the search for heaps.
use snow.Base.{[], arith, refl, ◌∷◌}
use snow.Gc.{ChunkInfo, Gc, snow_gc_round}
use snow.Gc.Chunks.{Covers}
use snow.Gc.Sizes.{Rounded, snow_gc_round-Rounded}
use snow.GcHeap.{gc_heap_init}

abbrev one_chunk : ChunkInfo
one_chunk = record {
  lower_bound = 4096;
  upper_bound = 8192;
  allocated_size = 4096;
  freed_size = 0;
  total_mem_usage = 4096;
}

one_chunk-Covers : Covers one_chunk ((4096, 4096) ∷ [])
one_chunk-Covers = record {
  bounds = (omega arith, omega arith, tt);
  unset = λ e. absurd (omega (arith, e));
  total_eq = refl;
}

abbrev small_gc : Gc
small_gc = record {
  nurseries =
      record gc_heap_init { start = 4096; current = 4144; end = 8192; num_objects = 1 } ∷ [];
  adults = [];
  biggies = [];
  unkillables = [];
  graveyard = [];
  chunks = one_chunk;
}

snow_gc_round-Rounded_example : Rounded 33 (snow_gc_round 33)
snow_gc_round-Rounded_example = snow_gc_round-Rounded 33 (omega arith)
