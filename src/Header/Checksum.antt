-- ===== src/Header/Checksum.antt =====
-- Checksums, and allocations that look like allocations.
use snow.Base.{
  ==_iff, ap, arith, refl, subst, sym, true, ℕ, ◌%◌, ◌*◌, ◌+◌, ◌/◌, ◌<◌, ◌^◌, ◌∙◌, ◌≡◌, ◌≤◌,
}
use snow.Header.{
  gc_check_checksum, gc_compute_checksum, gc_init_allocation, gc_looks_like_allocation, info_size,
  magic_bead_head, magic_bead_tail, pack_info, store, type_bits,
}
use snow.Mark.{AllocType}
use snow.Value.{Word}
use snow.Gc.{ChunkInfo, gc_maybe_contains}
use snow.GcHeap.{head_size}

-- A word of so many bits has no more of them set.
abbrev pub FewBits : (Word → ℕ) → Type 0
FewBits popcount = (w : Word) → w < 2 ^ 58 → popcount w ≤ 58

checksum_field : (v k : ℕ) → v < 2 ^ 58 → k ≤ 58 → k % 2 ^ 8 ≡ (v + k % 2 ^ 6 * 2 ^ 58) / 2 ^ 58
checksum_field v k h l = omega arith

size_field :
    (size index b k : ℕ)
    → size < 2 ^ 32
    → ((size % 2 ^ 32 + index % 2 ^ 24 * 2 ^ 32 + b * 2 ^ 56) % 2 ^ 58 + k % 2 ^ 6 * 2 ^ 58)
        % 2 ^ 32
      ≡ size
size_field size index b k h = omega arith

low_bits : (w k : ℕ) → (w % 2 ^ 58 + k % 2 ^ 6 * 2 ^ 58) % 2 ^ 58 ≡ w % 2 ^ 58
low_bits w k = omega arith

-- The four words of a head and a tail, read back.
abbrev pub four_words : (ℕ → Word) → Word → Word → Word → Word → ℕ → Word
four_words m ptr tail info f =
    store (store (store (store m (ptr + 8) magic_bead_head) (tail + 8) magic_bead_tail) ptr info)
      tail f

pub record AreWritten (a : ℕ → Word) (ptr tail info f : Word) : Type 0 where
  pub info_there : a ptr ≡ info
  pub head_there : a (ptr + 8) ≡ magic_bead_head
  pub tail_there : a (tail + 8) ≡ magic_bead_tail
  pub free_there : a tail ≡ f

pub four_words-AreWritten :
    (m : ℕ → Word) (ptr tail info f : Word)
    → ptr + 16 ≤ tail
    → AreWritten (four_words m ptr tail info f) ptr tail info f
four_words-AreWritten m ptr tail info f h = record {
  info_there = ground arith;
  head_there = ground arith;
  tail_there = ground arith;
  free_there = ground arith;
}

module _ (popcount : Word → ℕ) where
  pub gc_check_checksum-gc_compute_checksum :
      (w : Word)
      → FewBits popcount
      → gc_check_checksum popcount (gc_compute_checksum popcount w) ≡ true
  unfolding gc_check_checksum gc_compute_checksum
  gc_check_checksum-gc_compute_checksum w few =
      let k = popcount (w % 2 ^ 58) in
      let e = low_bits w k in
      rw e (
        (==_iff (k % 2 ^ 8) ((w % 2 ^ 58 + k % 2 ^ 6 * 2 ^ 58) / 2 ^ 58)).1
          (checksum_field (w % 2 ^ 58) k (omega arith) (few (w % 2 ^ 58) (omega arith))))

  pub info_size-gc_compute_checksum :
      (size index : ℕ) (t : AllocType)
      → size < 2 ^ 32
      → info_size (gc_compute_checksum popcount (pack_info size index t)) ≡ size
  unfolding gc_compute_checksum
  info_size-gc_compute_checksum size index t h =
      size_field size index (type_bits t) (popcount (pack_info size index t % 2 ^ 58)) h

  AreWritten-gc_looks_like_allocation :
      (a : ℕ → Word) (c : ChunkInfo) (ptr info f : Word)
      → AreWritten a ptr (ptr + head_size + info_size info) info f
      → gc_check_checksum popcount info ≡ true
      → gc_maybe_contains c (ptr + head_size + info_size info) ≡ true
      → gc_looks_like_allocation popcount a c ptr ≡ true
  unfolding gc_looks_like_allocation
  AreWritten-gc_looks_like_allocation a c ptr info f w checked inside =
      rw (w.info_there, w.head_there, checked, inside, w.tail_there) refl

  -- If no word has more than as many bits set as it has bits, then what `gc_init_allocation` writes looks
  -- like an allocation of the size given, if that has 32 bits, is aligned and ends inside the bounds.
  pub gc_looks_like_allocation-gc_init_allocation :
      (m : ℕ → Word) (c : ChunkInfo) (ptr : Word) (size index : ℕ) (t : AllocType) (f : Word)
      → FewBits popcount
      → size < 2 ^ 32
      → gc_maybe_contains c (ptr + head_size + size) ≡ true
      → let after = (gc_init_allocation popcount m ptr size t index f).1 in
        (gc_looks_like_allocation popcount after c ptr ≡ true)
        × (info_size (after ptr) ≡ size)
        × (after (ptr + head_size + size) ≡ f)
  unfolding gc_looks_like_allocation gc_init_allocation
  gc_looks_like_allocation-gc_init_allocation m c ptr size index t f few small inside =
      let info = gc_compute_checksum popcount (pack_info size index t) in
      let w = four_words-AreWritten m ptr (ptr + head_size + size) info f (omega arith) in
      let e = info_size-gc_compute_checksum size index t small in
      let inside' : gc_maybe_contains c (ptr + head_size + info_size info) ≡ true =
        ap (λ k. gc_maybe_contains c (ptr + head_size + k)) e ∙ inside in
      let checked = gc_check_checksum-gc_compute_checksum (pack_info size index t) few in
      (
        AreWritten-gc_looks_like_allocation (four_words m ptr (ptr + head_size + size) info f) c ptr
            info f
            (subst
              (λ k.
                AreWritten (four_words m ptr (ptr + head_size + size) info f) ptr
                  (ptr + head_size + k) info f)
              (sym e) w)
            checked inside',
        ap info_size w.info_there ∙ e,
        w.free_there,
      )
