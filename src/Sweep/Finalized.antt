-- ===== src/Sweep/Finalized.antt =====
-- A finalized object can still be found, and is stale.
use snow.Base.{
  Bool, ap, arith, inl, inr, true, ℕ, ◌%◌, ◌&&◌, ◌*◌, ◌+◌, ◌-◌, ◌/◌, ◌<◌, ◌==◌, ◌^◌, ◌∙◌, ◌≡◌, ◌≢◌,
  ◌≤◌, ◌⊎◌,
}
use snow.Sweep.{
  Sweeping, call_free_func, fill_ef, gc_finalize_object, info_type, make_stale, type_of,
  with_no_type,
}
use snow.Gc.{ChunkInfo, gc_maybe_contains}
use snow.GcHeap.{head_size}
use snow.Header.{
  gc_check_checksum, gc_compute_checksum, gc_looks_like_allocation, info_size, magic_bead_head,
  magic_bead_tail, store,
}
use snow.Header.Checksum.{FewBits, gc_check_checksum-gc_compute_checksum}
use snow.Mark.{gc_invalid}
use snow.Value.{Word}

stale_size :
    (w k : ℕ)
    → ((w % 2 ^ 56 + w / 2 ^ 58 * 2 ^ 58) % 2 ^ 58 + k % 2 ^ 6 * 2 ^ 58) % 2 ^ 32 ≡ w % 2 ^ 32
stale_size w k = omega arith

stale_type :
    (w k : ℕ) → ((w % 2 ^ 56 + w / 2 ^ 58 * 2 ^ 58) % 2 ^ 58 + k % 2 ^ 6 * 2 ^ 58) / 2 ^ 56 % 4 ≡ 0
stale_type w k = omega arith

-- The words around an object survive the filling of it.
around :
    (m : ℕ → Word) (o size info y : Word)
    → (y < o) ⊎ (o + size ≤ y)
    → y ≢ o - 16
    → store (fill_ef m o size) (o - 16) info y ≡ m y
around m o size info y out other = ground arith

head_kept : (m : ℕ → Word) (o size : Word) → 16 ≤ o → fill_ef m o size (o - 16) ≡ m (o - 16)
head_kept m o size h = ground arith

at_head : (m : ℕ → Word) (o info : Word) → store m (o - 16) info (o - 16) ≡ info
at_head m o info = ground arith

without_check : (x y z w : Bool) → (x && y && z && w) ≡ true → (x && true && z && w) ≡ true
without_check x y z w e = ground arith

module _ (popcount : Word → ℕ) (free : Word → Word → (ℕ → Word) → (ℕ → Word)) (chunk : Word)
    (heap_of : Word → ℕ) where
  -- The allocation of an object that is stale.
  pub record IsStale (c : ChunkInfo) (object : Word) (size : ℕ) (m : ℕ → Word) : Type 0 where
    pub looks : gc_looks_like_allocation popcount m c (object - 16) ≡ true
    pub sized : info_size (m (object - 16)) ≡ size
    pub stale : info_type (m (object - 16)) ≡ gc_invalid

  size_of_stale :
      (w : Word) → info_size (gc_compute_checksum popcount (with_no_type w)) ≡ info_size w
  unfolding gc_compute_checksum
  size_of_stale w = stale_size w (popcount (with_no_type w % 2 ^ 58))

  type_of_stale :
      (w : Word) → info_type (gc_compute_checksum popcount (with_no_type w)) ≡ gc_invalid
  unfolding gc_compute_checksum
  type_of_stale w = ap type_of (stale_type w (popcount (with_no_type w % 2 ^ 58)))

  looks_apart :
      (m a : ℕ → Word) (c : ChunkInfo) (p : Word)
      → gc_looks_like_allocation popcount m c p ≡ true
      → a (p + 8) ≡ m (p + 8)
      → info_size (a p) ≡ info_size (m p)
      → gc_check_checksum popcount (a p) ≡ true
      → a (p + head_size + info_size (m p) + 8) ≡ m (p + head_size + info_size (m p) + 8)
      → gc_looks_like_allocation popcount a c p ≡ true
  unfolding gc_looks_like_allocation
  looks_apart m a c p looks head_same size_same checked tail_same =
      rw (head_same, size_same, checked, tail_same)
        (without_check (m (p + 8) == magic_bead_head) (gc_check_checksum popcount (m p))
          (gc_maybe_contains c (p + head_size + info_size (m p)))
          (m (p + head_size + info_size (m p) + 8) == magic_bead_tail) looks)

  make_stale-IsStale :
      (c : ChunkInfo) (object : Word) (m : ℕ → Word)
      → FewBits popcount
      → 16 ≤ object
      → gc_looks_like_allocation popcount m c (object - 16) ≡ true
      → IsStale c object
          (info_size (m (object - 16)))
          (make_stale popcount free chunk heap_of m object)
  unfolding make_stale
  make_stale-IsStale c object m bits high looks =
      let w = m (object - 16) in
      let size = info_size w in
      let filled = fill_ef m object size in
      let info = gc_compute_checksum popcount (with_no_type (filled (object - 16))) in
      let a = store filled (object - 16) info in
      let same_head : filled (object - 16) ≡ w = head_kept m object size high in
      let at : a (object - 16) ≡ info = at_head filled object info in
      let size_same : info_size (a (object - 16)) ≡ size =
        ap info_size at
        ∙ ap (λ v. info_size (gc_compute_checksum popcount (with_no_type v))) same_head
        ∙ size_of_stale w in
      record {
        looks =
            looks_apart m a c (object - 16) looks
              (around m object size info (object - 16 + 8) (inl (omega arith)) (omega arith))
              size_same
              (ap (gc_check_checksum popcount) at
                ∙ gc_check_checksum-gc_compute_checksum popcount
                    (with_no_type (filled (object - 16))) bits)
              (around m object size info (object - 16 + head_size + size + 8) (inr (omega arith))
                (omega arith));
        sized = size_same;
        stale =
            ap info_type at
            ∙ ap (λ v. info_type (gc_compute_checksum popcount (with_no_type v))) same_head
            ∙ type_of_stale w;
      }

  -- If an object's allocation looks like one after its free function ran, then after `gc_finalize_object`
  -- it does so still, with the same size, and its type is GC_INVALID, by which stale pointers are known.
  pub gc_finalize_object-IsStale :
      (c : ChunkInfo) (object : Word) (s : Sweeping)
      → FewBits popcount
      → 16 ≤ object
      → let ran =
          call_free_func popcount free chunk heap_of s.swept_memory object
            (object + info_size (s.swept_memory (object - 16))) in
        gc_looks_like_allocation popcount ran c (object - 16) ≡ true
        → IsStale c object
            (info_size (ran (object - 16)))
            (gc_finalize_object popcount free chunk heap_of object s).swept_memory
  unfolding gc_finalize_object
  gc_finalize_object-IsStale c object s bits high looks =
      make_stale-IsStale c object
        (call_free_func popcount free chunk heap_of s.swept_memory object
          (object + info_size (s.swept_memory (object - 16))))
        bits high looks
