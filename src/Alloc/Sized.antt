-- ===== src/Alloc/Sized.antt =====
-- What can be read from an allocation, and set in it.
use snow.Base.{Option, Returns, ap, arith, ok, returns, some, ℕ, ◌+◌, ◌-◌, ◌/◌, ◌<◌, ◌≡◌, ◌≤◌, ◌⊎◌}
use snow.Header.{store}
use snow.Alloc.{snow_gc_allocated_size, snow_gc_set_free_func, start_of}
use snow.Gc.{ChunkInfo}
use snow.GcHeap.{GcHeap, head_size}
use snow.Header.Start.{IsAllocation, gc_find_object_start-inside}
use snow.Value.{Word}

module _ (popcount : Word → ℕ) (n : ℕ) (c : ChunkInfo) (find : Word → Option GcHeap) (m : ℕ → Word)
    (heap : GcHeap) (p size : Word) where
  start_of-inside :
      (q : Word)
      → IsAllocation popcount m c heap p size
      → find q ≡ some heap
      → p ≤ q
      → q < p + head_size + size
      → (q - p) / 16 < n
      → start_of popcount n c find m q
        ≡ ok (record {
          object_at = p + head_size;
          alloc_info_at = p;
          meta_info_at = p + head_size + size;
        })
  unfolding start_of
  start_of-inside q a e lo hi enough =
      rw (start_of, e) (gc_find_object_start-inside popcount m c heap p size n q a lo hi enough)

  -- For an address in the head or the data of an allocation of the heap that is found for it, with enough
  -- rounds for the search: its size is the allocation's, and a free function that is set stands in the
  -- tail of the allocation, where nothing else of memory changes.
  pub snow_gc_allocated_size-snow_gc_set_free_func :
      (q f : Word)
      → IsAllocation popcount m c heap p size
      → find q ≡ some heap
      → p ≤ q
      → q < p + head_size + size
      → (q - p) / 16 < n
      → (snow_gc_allocated_size popcount n c find m q ≡ ok size)
        × Returns
            (λ m'.
              (m' (p + head_size + size) ≡ f)
              × ((x : Word) → (x ≡ p + head_size + size) ⊎ (m' x ≡ m x)))
            (snow_gc_set_free_func popcount n c find m q f)
  unfolding snow_gc_allocated_size snow_gc_set_free_func
  snow_gc_allocated_size-snow_gc_set_free_func q f a e lo hi enough =
      let s = start_of-inside q a e lo hi enough in
      (rw s (ap ok a.sized), rw s (returns (store_same, store_other)))
    where
      store_same : store m (p + head_size + size) f (p + head_size + size) ≡ f
      store_same = ground arith

      store_other :
          (x : Word) → (x ≡ p + head_size + size) ⊎ (store m (p + head_size + size) f x ≡ m x)
      store_other x = ground arith
