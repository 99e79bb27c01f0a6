-- ===== src/Header/Tests.antt =====
-- Tests of allocations: one of 32 bytes at 4096.
use snow.Base.{arith, false, ok, refl, true, ℕ, ◌+◌, ◌<◌, ◌==◌, ◌≡◌}
use snow.Header.{
  gc_compute_checksum, gc_find_object_start, gc_init_allocation, gc_looks_like_allocation,
  info_size, magic_bead_head, magic_bead_tail, pack_info, store,
}
use snow.Gc.{ChunkInfo}
use snow.GcHeap.{GcHeap, gc_heap_init}
use snow.Header.Checksum.{gc_looks_like_allocation-gc_init_allocation}
use snow.Mark.{gc_blob}
use snow.Value.{Word}
use snow.Header.Start.{IsAllocation, gc_find_object_start-inside}
use snow.Header.Bits.{popcount_64, popcount_64-FewBits}

abbrev bounds : ChunkInfo
bounds = record {
  lower_bound = 4096;
  upper_bound = 8192;
  allocated_size = 4096;
  freed_size = 0;
  total_mem_usage = 4096;
}

abbrev one_allocation : ℕ → Word
one_allocation = (gc_init_allocation popcount_64 (λ x. 0) 4096 32 gc_blob 3 7).1

laid_out :
    (gc_looks_like_allocation popcount_64 one_allocation bounds 4096 ≡ true)
    × (info_size (one_allocation 4096) ≡ 32)
laid_out =
    let all =
      gc_looks_like_allocation-gc_init_allocation popcount_64 (λ x. 0) bounds 4096 32 3 gc_blob 7
        popcount_64-FewBits (omega arith) refl in
    (all.0, all.1)

-- A heap with the allocation at its start.
abbrev small_gc_heap : GcHeap
small_gc_heap = record gc_heap_init { start = 4096; current = 4160; end = 8192 }

no_bead :
    (info : Word) (q : Word)
    → 4096 < q
    → q < 4144
    → (store
          (store (store (store (λ x. 0) 4104 magic_bead_head) 4152 magic_bead_tail) 4096 info)
          4144
          7
          (q + 8)
        == magic_bead_head)
      ≡ false
no_bead info q lo hi = ground arith

one_allocation-IsAllocation : IsAllocation popcount_64 one_allocation bounds small_gc_heap 4096 32
unfolding gc_looks_like_allocation gc_init_allocation
one_allocation-IsAllocation = record {
  looks = laid_out.0;
  sized = laid_out.1;
  aligned = refl;
  within_low = omega arith;
  within_high = omega arith;
  heap_there = λ e. cc;
  low_bound = omega arith;
  high_bound = omega arith;
  no_other = λ q lo hi.
      rw (no_bead (gc_compute_checksum popcount_64 (pack_info 32 3 gc_blob)) q lo hi) refl;
}

gc_find_object_start-inside_example :
    gc_find_object_start popcount_64 4 one_allocation bounds small_gc_heap 4130
    ≡ ok (record { object_at = 4112; alloc_info_at = 4096; meta_info_at = 4144 })
gc_find_object_start-inside_example =
    gc_find_object_start-inside popcount_64 one_allocation bounds small_gc_heap 4096 32 4 4130
      one_allocation-IsAllocation (omega arith) (omega arith) (omega arith)
