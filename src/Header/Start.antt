-- ===== src/Header/Start.antt =====
-- Finding the start of an allocation from an address inside.
use snow.Base.{
  Bool-cases, arith, false, inl, inr, ok, refl, suc, true, zero, ℕ, ◌%◌, ◌*◌, ◌+◌, ◌-◌, ◌/◌, ◌<◌,
  ◌≡◌, ◌≢◌, ◌≤◌,
}
use snow.Header.{gc_find_object_start, gc_looks_like_allocation, info_size, search_down}
use snow.Gc.{ChunkInfo, gc_maybe_contains}
use snow.GcHeap.{GcHeap, gc_alignment, gc_heap_contains, head_size}
use snow.Value.{Word}

module _ (popcount : Word → ℕ) (m : ℕ → Word) (c : ChunkInfo) (heap : GcHeap) (p size : Word) where
  -- An allocation of the heap at `p`, where nothing inside looks like another one.
  pub record IsAllocation : Type 0 where
    pub looks : gc_looks_like_allocation popcount m c p ≡ true
    pub sized : info_size (m p) ≡ size
    pub aligned : p % 16 ≡ 0
    pub within_low : heap.start ≤ p
    pub within_high : p + head_size + size + 16 ≤ heap.end
    pub heap_there : heap.start ≢ 0
    pub low_bound : c.lower_bound ≤ p
    pub high_bound : p + head_size + size ≤ c.upper_bound
    pub no_other :
        (q : Word)
        → p < q
        → q < p + head_size + size
        → gc_looks_like_allocation popcount m c q ≡ false

  contains_above :
      (q : Word)
      → IsAllocation
      → p + 16 ≤ q
      → q < p + head_size + size
      → gc_heap_contains heap q ≡ true
  unfolding gc_heap_contains
  contains_above q a lo hi = ground (arith, a.within_low, a.within_high, a.heap_there)

  bounded_above :
      (q : Word) → IsAllocation → p ≤ q → q < p + head_size + size → gc_maybe_contains c q ≡ true
  bounded_above q a lo hi = ground (arith, a.low_bound, a.high_bound)

  stops : (n : ℕ) → IsAllocation → search_down popcount (suc n) m c heap p ≡ ok p
  unfolding search_down
  stops n a = elim (Bool-cases (gc_heap_contains heap p)) [
    | inl e ↦ rw (e, a.looks) refl
    | inr e ↦ rw e refl
  ]

  search_down-start :
      (n k : ℕ) (q : Word)
      → IsAllocation
      → q ≡ p + k * 16
      → q < p + head_size + size
      → k < n
      → search_down popcount n m c heap q ≡ ok p
  unfolding search_down
  search_down-start zero k q a at inside enough = absurd (omega arith)
  search_down-start (suc n) zero q a at inside enough =
      let e : q ≡ p = omega arith in rw e (stops n a)
  search_down-start (suc n) (suc k) q a at inside enough =
      rw
        (
          contains_above q a (omega arith) inside,
          a.no_other q (omega arith) inside,
          bounded_above (q - gc_alignment) a (omega arith) (omega arith),
        )
        (search_down-start n k (q - gc_alignment) a (omega arith) (omega arith) (omega arith))

  -- From every address in the head or the data of an allocation of a heap, with as many rounds as there
  -- are 16 bytes up to it, `gc_find_object_start` finds the object of that allocation, and its info before
  -- and behind it, if nothing inside of it looks like another allocation.
  pub gc_find_object_start-inside :
      (n : ℕ) (inside : Word)
      → IsAllocation
      → p ≤ inside
      → inside < p + head_size + size
      → (inside - p) / 16 < n
      → gc_find_object_start popcount n m c heap inside
        ≡ ok (record {
          object_at = p + head_size;
          alloc_info_at = p;
          meta_info_at = p + head_size + size;
        })
  unfolding gc_find_object_start
  gc_find_object_start-inside n inside a lo hi enough =
      let q = inside - inside % gc_alignment in
      let e =
        search_down-start n ((inside - p) / 16) q a (omega (arith, a.aligned)) (omega arith)
          enough in
      rw (e, a.sized) refl
