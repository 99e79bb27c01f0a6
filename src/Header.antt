-- ===== src/Header.antt =====
-- snow/gc.c: what stands before and behind an allocation, and how the collector finds the start of one
-- from an address inside. Memory is read in words of 64 bits at their addresses. `popcount` is the
-- compiler's `__builtin_popcountll`.
pub mod Checksum
pub mod Start
pub mod Bits
pub mod Find
mod Tests
use snow.Base.{
  Bool, Result, assert, if◌then◌else◌, ltb, not, ok, suc, trap, zero, ℕ, ◌%◌, ◌&&◌, ◌*◌, ◌+◌, ◌-◌,
  ◌/◌, ◌==◌, ◌>>=◌, ◌>>◌, ◌^◌,
}
use snow.Gc.{ChunkInfo, gc_maybe_contains}
use snow.GcHeap.{GcHeap, gc_alignment, gc_heap_contains, head_size}
use snow.Mark.{AllocType, gc_atomic, gc_blob, gc_invalid, gc_object}
use snow.Value.{Word}

abbrev pub magic_bead_head : Word
magic_bead_head = 13712826368661500845

abbrev pub magic_bead_tail : Word
magic_bead_tail = 12947209759155404365

-- The bits of `SnGCAllocType`
abbrev pub type_bits : AllocType → ℕ
type_bits gc_invalid = 0
type_bits gc_object = 1
type_bits gc_blob = 2
type_bits gc_atomic = 3

-- `SnGCAllocInfo` without its checksum, by its bit fields
abbrev pub pack_info : ℕ → ℕ → AllocType → Word
pack_info size index t = size % 2 ^ 32 + index % 2 ^ 24 * 2 ^ 32 + type_bits t * 2 ^ 56

abbrev pub info_size : Word → ℕ
info_size w = w % 2 ^ 32

abbrev pub info_checksum : Word → ℕ
info_checksum w = w / 2 ^ 58

abbrev pub without_checksum : Word → Word
without_checksum w = w % 2 ^ 58

-- A store of a word.
abbrev pub store : (ℕ → Word) → ℕ → Word → ℕ → Word
store m a w = λ x. if x == a then w else m x

-- What `gc_find_object_start` gives: the object, its `SnGCAllocInfo` and its `SnGCMetaInfo`.
pub record ObjectStart : Type 0 where
  pub object_at : Word
  pub alloc_info_at : Word
  pub meta_info_at : Word

module _ (popcount : Word → ℕ) where
  unfoldable pub gc_compute_checksum : Word → Word
  gc_compute_checksum w = without_checksum w + popcount (without_checksum w) % 2 ^ 6 * 2 ^ 58

  unfoldable pub gc_check_checksum : Word → Bool
  gc_check_checksum w = popcount (without_checksum w) % 2 ^ 8 == info_checksum w

  -- The data, and the memory with the head and the tail.
  unfoldable pub gc_init_allocation :
      (ℕ → Word) → Word → ℕ → AllocType → ℕ → Word → Word × (ℕ → Word)
  gc_init_allocation m ptr rounded_size t object_index free_func =
      let tail = ptr + head_size + rounded_size in
      let beads = store (store m (ptr + 8) magic_bead_head) (tail + 8) magic_bead_tail in
      let with_info =
        store beads ptr (gc_compute_checksum (pack_info rounded_size object_index t)) in
      (ptr + head_size, store with_info tail free_func)

  unfoldable pub gc_looks_like_allocation : (ℕ → Word) → ChunkInfo → Word → Bool
  gc_looks_like_allocation m c ptr =
      let data_end = ptr + head_size + info_size (m ptr) in
      (m (ptr + 8) == magic_bead_head)
      && gc_check_checksum (m ptr)
      && gc_maybe_contains c data_end
      && (m (data_end + 8) == magic_bead_tail)

  -- The loop of `gc_find_object_start`; fuel counts its rounds.
  unfoldable pub search_down : ℕ → (ℕ → Word) → ChunkInfo → GcHeap → Word → Result Word
  search_down zero m c heap ptr = trap
  search_down (suc n) m c heap ptr =
      let lower = search_down n m c heap (ptr - gc_alignment) in
      if gc_heap_contains heap ptr && not (gc_looks_like_allocation m c ptr)
      then (do assert (gc_maybe_contains c (ptr - gc_alignment)); lower)
      else ok ptr

  unfoldable pub gc_find_object_start :
      ℕ → (ℕ → Word) → ChunkInfo → GcHeap → Word → Result ObjectStart
  gc_find_object_start n m c heap inside = do
    ptr ← search_down n m c heap (inside - inside % gc_alignment)
    ok (record {
      object_at = ptr + head_size;
      alloc_info_at = ptr;
      meta_info_at = ptr + head_size + info_size (m ptr);
    })

  -- `gc_with_each_object_in_heap_do` from `p` to `heap->current`; `memory` is the memory in the state.
  unfoldable pub with_each_object_from {ℓ} :
      {S : Type ℓ}
      → ℕ
      → (S → ℕ → Word)
      → ChunkInfo
      → (Word → S → Result S)
      → Word
      → Word
      → S
      → Result S
  with_each_object_from zero memory c action current p s = trap
  with_each_object_from (suc n) memory c action current p s =
      let tail = p + head_size + info_size (memory s p) in
      if ltb p current
      then (do
        assert (gc_looks_like_allocation (memory s) c p)
        t ← action (p + head_size) s
        with_each_object_from n memory c action current (tail + 16) t)
      else ok s
