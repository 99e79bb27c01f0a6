-- ===== src/GcHeap/Tests.antt =====
-- Tests of the heaps of the collector.
use snow.Base.{Returns, [], arith, inr, refl, ◌∷◌}
use snow.GcHeap.{GcHeap, gc_heap_init, gc_heap_list_alloc}
use snow.GcHeap.Blocks.{Laid}
use snow.GcHeap.Flags.{Flagged}
use snow.GcHeap.Heaps.{Made, PlacedIn, gc_heap_list_alloc-PlacedIn}

abbrev one_object : GcHeap
one_object = record gc_heap_init { start = 4096; current = 4144; end = 8192; num_objects = 1 }

one_object-Laid : Laid one_object (48 ∷ [])
one_object-Laid = record { current_eq = refl; in_chunk = omega arith; num_objects_eq = refl }

one_object-Made : Made one_object
one_object-Made = record {
  sizes = 48 ∷ [];
  laid = one_object-Laid;
  few = omega arith;
  idle = λ e. absurd (omega (arith, e));
}

one_object-Flagged : Flagged one_object []
one_object-Flagged = record { bytes = inr (refl, refl); num_flags_eq = refl; small = omega arith }

gc_heap_list_alloc-PlacedIn_example :
    Returns
      (PlacedIn 64 12288 (one_object ∷ []))
      (gc_heap_list_alloc (one_object ∷ []) 64 12288 4096)
gc_heap_list_alloc-PlacedIn_example =
    gc_heap_list_alloc-PlacedIn (one_object ∷ []) 64 12288 4096 (one_object-Made, tt) (omega arith)
      refl (omega arith)
