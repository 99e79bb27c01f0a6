-- ===== src/Sweep/Tests.antt =====
-- Tests of the sweep: an object of 32 bytes at 4112, without a free function.
use snow.Base.{[], arith, false, refl, subst, sym, true, ℕ, ◌+◌, ◌-◌, ◌≡◌}
use snow.Sweep.{Sweeping, call_free_func, gc_finalize_object}
use snow.Gc.{ChunkInfo}
use snow.Header.{gc_init_allocation, gc_looks_like_allocation, info_size}
use snow.Header.Bits.{popcount_64, popcount_64-FewBits}
use snow.Header.Checksum.{gc_looks_like_allocation-gc_init_allocation}
use snow.Mark.{gc_blob}
use snow.Sweep.Finalized.{IsStale, gc_finalize_object-IsStale}
use snow.Value.{Word}

abbrev all_memory : ChunkInfo
all_memory = record {
  lower_bound = 4096;
  upper_bound = 16384;
  allocated_size = 12288;
  freed_size = 0;
  total_mem_usage = 12288;
}

abbrev one_object : ℕ → Word
one_object = (gc_init_allocation popcount_64 (λ x. x) 4096 32 gc_blob 3 0).1

abbrev one_sweep : Sweeping
one_sweep = record {
  swept_memory = one_object;
  object_flags = λ o. record {
    gc_mark = false;
    gc_transplanted = false;
    gc_updated = false;
    gc_indefinite = false;
  };
  destination = [];
  reachable_of = λ h. 1;
  stats_moved = 0;
  stats_freed = 0;
}

one_object_laid :
    (gc_looks_like_allocation popcount_64 one_object all_memory 4096 ≡ true)
    × (info_size (one_object 4096) ≡ 32)
one_object_laid =
    let all =
      gc_looks_like_allocation-gc_init_allocation popcount_64 (λ x. x) all_memory 4096 32 3 gc_blob
        0 popcount_64-FewBits (omega arith) refl in
    (all.0, all.1)

-- The free function is NULL.
abbrev nothing_called : ℕ → Word
nothing_called =
    call_free_func popcount_64 (λ f o m. m) 8192 (λ o. 0) one_object 4112
      (4112 + info_size (one_object (4112 - 16)))

no_call : nothing_called ≡ one_object
unfolding gc_init_allocation
no_call = let e : 4112 - 16 ≡ 4096 = omega arith in rw (e, one_object_laid.1) refl

gc_finalize_object-IsStale_example :
    IsStale popcount_64
      (λ f o m. m)
      8192
      (λ o. 0)
      all_memory
      4112
      (info_size (nothing_called (4112 - 16)))
      (gc_finalize_object popcount_64 (λ f o m. m) 8192 (λ o. 0) 4112 one_sweep).swept_memory
gc_finalize_object-IsStale_example =
    gc_finalize_object-IsStale popcount_64 (λ f o m. m) 8192 (λ o. 0) all_memory 4112 one_sweep
      popcount_64-FewBits (omega arith)
      (subst (λ m. gc_looks_like_allocation popcount_64 m all_memory 4096 ≡ true) (sym no_call)
        one_object_laid.0)
