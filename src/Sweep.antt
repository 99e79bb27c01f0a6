-- ===== src/Sweep.antt =====
-- snow/gc.c: what the sweep does to the objects of a heap: those that are marked and not indefinite move
-- to another list of heaps and leave their new address behind, those that are not marked are finalized.
-- `free` is the call of a free function for an object; `heap_of` is
-- the heap of an object, whose `num_reachable` is counted down.
pub mod Moved
pub mod Finalized
mod Tests
use snow.Base.{
  Bool, List, Result, [], assert, if◌then◌else◌, leb, ltb, ok, suc, true, zero, ℕ, ◌%◌, ◌&&◌, ◌*◌,
  ◌+◌, ◌-◌, ◌/◌, ◌==◌, ◌>>=◌, ◌>>◌, ◌^◌, ◌∷◌,
}
use snow.Gc.{ChunkInfo, gc_calculate_total_size}
use snow.GcHeap.{GcHeap, gc_heap_list_alloc}
use snow.Header.{gc_compute_checksum, gc_init_allocation, info_size, store, with_each_object_from}
use snow.Mark.{AllocType, GcFlags, gc_atomic, gc_blob, gc_invalid, gc_object, update}
use snow.Value.{Word, null}

abbrev pub gc_adult_size : ℕ
gc_adult_size = 8388608

-- `alloc_type` of `SnGCAllocInfo`
abbrev pub type_of : ℕ → AllocType
type_of zero = gc_invalid
type_of (suc zero) = gc_object
type_of (suc (suc zero)) = gc_blob
type_of (suc (suc (suc n))) = gc_atomic

abbrev pub info_type : Word → AllocType
info_type w = type_of (w / 2 ^ 56 % 4)

abbrev pub info_index : Word → ℕ
info_index w = w / 2 ^ 32 % 2 ^ 24

-- `alloc_type = GC_INVALID`
abbrev pub with_no_type : Word → Word
with_no_type w = w % 2 ^ 56 + w / 2 ^ 58 * 2 ^ 58

abbrev pub is_inside : Word → ℕ → Word → Bool
is_inside p size x = leb p x && ltb x (p + size)

-- `memset(p, 0xef, size)` and `memcpy`
abbrev pub fill_ef : (ℕ → Word) → Word → ℕ → ℕ → Word
fill_ef m p size = λ x. if is_inside p size x then 17289301308300324847 else m x

abbrev pub copy_bytes : (ℕ → Word) → Word → Word → ℕ → ℕ → Word
copy_bytes m to from size = λ x. if is_inside to size x then m (from + (x - to)) else m x

-- The collector's state in a sweep; flags are looked up by object, `num_reachable` by heap.
pub record Sweeping : Type 0 where
  pub swept_memory : ℕ → Word
  pub object_flags : Word → GcFlags
  pub destination : List GcHeap
  pub reachable_of : ℕ → ℕ
  pub stats_moved : ℕ
  pub stats_freed : ℕ

module _ (popcount : Word → ℕ) (free : Word → Word → (ℕ → Word) → (ℕ → Word)) (chunk : Word)
    (heap_of : Word → ℕ) where
  -- The end of `gc_transplant`, with the place of the new allocation.
  unfoldable pub move_object : (ℕ → Word) → Word → Word → ℕ → ℕ → Word
  move_object m object ptr index =
      let info = m (object - 16) in
      let size = info_size info in
      let (new_object, with_new) =
        gc_init_allocation popcount m ptr size (info_type info) index (m (object + size)) in
      let copied = copy_bytes with_new new_object object size in
      store (fill_ef copied object size) object new_object

  unfoldable pub gc_transplant : Word → Sweeping → Result Sweeping
  gc_transplant object s =
      let size = info_size (s.swept_memory (object - 16)) in
      (do
        assert (size % 16 == 0)
        (ptr, index, heaps) ←
            gc_heap_list_alloc s.destination (gc_calculate_total_size size) chunk gc_adult_size
        ok (record s {
          swept_memory = move_object s.swept_memory object ptr index;
          destination = heaps;
          stats_moved = s.stats_moved + 1;
        }))

  -- `if (meta->free_func) { meta->free_func(object); meta->free_func = NULL; }`
  abbrev pub call_free_func : (ℕ → Word) → Word → Word → ℕ → Word
  call_free_func m object meta_at =
      if m meta_at == null then m else store (free (m meta_at) object m) meta_at null

  -- The end of `gc_finalize_object`
  unfoldable pub make_stale : (ℕ → Word) → Word → ℕ → Word
  make_stale m object =
      let filled = fill_ef m object (info_size (m (object - 16))) in
      store filled (object - 16)
        (gc_compute_checksum popcount (with_no_type (filled (object - 16))))

  unfoldable pub gc_finalize_object : Word → Sweeping → Sweeping
  gc_finalize_object object s = record s {
    swept_memory =
        make_stale
          (call_free_func s.swept_memory object (object + info_size (s.swept_memory (object - 16))))
          object;
    stats_freed = s.stats_freed + 1;
  }

  unfoldable pub gc_transplant_or_finalize_object : Word → Sweeping → Result Sweeping
  gc_transplant_or_finalize_object object s =
      let flags = s.object_flags object in
      if flags.gc_mark
      then if flags.gc_indefinite then ok s else (do
        t ← gc_transplant object s
        ok (record t {
          object_flags = update t.object_flags object (record flags { gc_transplanted = true });
          reachable_of =
              update t.reachable_of (heap_of object)
                ((t.reachable_of (heap_of object) + 2 ^ 32 - 1) % 2 ^ 32);
        }))
      else ok (gc_finalize_object object s)

  unfoldable pub gc_sweep_heap : ℕ → ChunkInfo → GcHeap → Sweeping → Result Sweeping
  gc_sweep_heap n c heap s =
      with_each_object_from popcount n (λ t. t.swept_memory) c gc_transplant_or_finalize_object
        heap.current heap.start s

  -- The nurseries from the head on; one without a chunk is left out.
  unfoldable pub gc_sweep_nurseries : ℕ → ChunkInfo → List GcHeap → Sweeping → Result Sweeping
  gc_sweep_nurseries n c [] s = ok s
  gc_sweep_nurseries n c (h ∷ hs) s = do
    t ← if h.start == null then ok s else gc_sweep_heap n c h s
    gc_sweep_nurseries n c hs t

  -- `gc_invalidate_transplanted`
  unfoldable pub gc_invalidate_transplanted : Word → Sweeping → Result Sweeping
  gc_invalidate_transplanted object s =
      let info = s.swept_memory (object - 16) in
      ok (
        if (s.object_flags object).gc_transplanted
        then record s {
          swept_memory =
              store s.swept_memory (object - 16) (gc_compute_checksum popcount (with_no_type info));
        }
        else s)
