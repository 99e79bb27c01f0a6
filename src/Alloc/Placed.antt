-- ===== src/Alloc/Placed.antt =====
-- Small allocations: the next object of the nursery, before or after a collection.
use snow.Base.{List, Result, Returns, [], ok, true, ℕ, ◌+◌, ◌<◌, ◌≡◌}
use snow.Alloc.{Allocator, gc_nursery_size}
use snow.GcHeap.{GcHeap, head_size, tail_size, with_chunk}
use snow.Value.{Word, null}
use snow.Gc.{snow_gc_round}
use snow.Gc.Sizes.{Rounded}
use snow.Header.{gc_check_checksum, info_size, magic_bead_head, magic_bead_tail}
use snow.Alloc.Taken.{Packed, Taken}

module _ (popcount : Word → ℕ) (collect : Allocator → Result Allocator) (chunk : Word) where
  -- A collection returns, and leaves the nursery without a chunk, as gc_reset_or_save_nurseries does.
  abbrev pub Resets : Type 0
  Resets = (a : Allocator) → Returns (λ b. b.nursery.start ≡ null) (collect a)

  -- The nursery with its chunk, which is new if it had none.
  abbrev pub with_its_chunk : Allocator → Allocator
  with_its_chunk a = record a { nursery = with_chunk a.nursery chunk gc_nursery_size }

  -- The place is behind the objects of the nursery, or, if its chunk has no room, the first one of a new
  -- chunk after a collection.
  pub data Next (a : Allocator) (total_size : ℕ) (ptr : Word) (index : ℕ) (h : GcHeap)
      : Type 0 where
    had_room :
        (sizes : List ℕ)
        → Packed (with_its_chunk a).nursery sizes
        → Taken a.nursery sizes total_size ptr index h
        → Next a total_size ptr index h
    after_collection :
        (c : Allocator)
        → (with_its_chunk a).nursery.end < (with_its_chunk a).nursery.current + total_size
        → collect (with_its_chunk a) ≡ ok c
        → c.nursery.start ≡ null
        → Taken c.nursery [] total_size ptr index h
        → Next a total_size ptr index h

  abbrev pub NextIn : Allocator → ℕ → Word × ℕ × Allocator → Type 0
  NextIn a total_size (ptr, index, b) = Next a total_size ptr index b.nursery

  -- A new object at the next place, with its size rounded, in a head and a tail that belong together, and
  -- without a free function.
  pub record Allocated (a : Allocator) (size : ℕ) (object : Word) (b : Allocator) : Type 0 where
    pub ptr : Word
    pub index : ℕ
    pub rounded : Rounded size (snow_gc_round size)
    pub next : Next a (snow_gc_round size + (head_size + tail_size)) ptr index b.nursery
    pub object_eq : object ≡ ptr + head_size
    pub bead_before : b.memory (ptr + 8) ≡ magic_bead_head
    pub bead_behind : b.memory (ptr + head_size + snow_gc_round size + 8) ≡ magic_bead_tail
    pub checked : gc_check_checksum popcount (b.memory ptr) ≡ true
    pub sized : info_size (b.memory ptr) ≡ snow_gc_round size
    pub no_free_func : b.memory (ptr + head_size + snow_gc_round size) ≡ null

  abbrev pub AllocatedIn : Allocator → ℕ → Word × Allocator → Type 0
  AllocatedIn a size (object, b) = Allocated a size object b
