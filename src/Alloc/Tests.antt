-- ===== src/Alloc/Tests.antt =====
-- Tests of allocation: a nursery with no chunk yet, and one without room.
use snow.Base.{Result, [], ok}
use snow.Alloc.{Allocator}
use snow.GcHeap.{gc_heap_finalize, gc_heap_init}

abbrev new_allocator : Allocator
new_allocator = record {
  nursery = gc_heap_init;
  big_heaps = [];
  memory = λ x. 0;
  total_objects = 0;
}

-- The chunk of this nursery has 16 bytes left, and it counts objects of chunks before.
abbrev full_allocator : Allocator
full_allocator = record new_allocator {
  nursery = record gc_heap_init { start = 4096; current = 4144; end = 4160; num_objects = 7 };
}

abbrev reset_nursery : Allocator → Result Allocator
reset_nursery a = ok (record a { nursery = gc_heap_finalize a.nursery })
