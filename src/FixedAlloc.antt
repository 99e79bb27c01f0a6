-- ===== src/FixedAlloc.antt =====
-- snow/fixed-alloc.c: blocks of one size with a free list threaded through the freed blocks.
-- `next_at` is the word at the start of each freed block. `snow_malloc` gives a block that the caller
-- of the model names.
pub mod FreeList
pub mod Blocks
mod Tests
use snow.Base.{Bool, Result, assert, false, if◌then◌else◌, ok, true, ◌==◌, ◌>>◌}
use snow.Value.{Word, null}

-- `struct fixed_alloc_t` with the links that it keeps in freed memory; no free block is address 0.
pub record FixedAlloc : Type 0 where
  pub free_element : Word
  pub lock_initialized : Bool
  pub next_at : Word → Word

-- `FIXED_ALLOCATOR`
abbrev pub fixed_allocator : FixedAlloc
fixed_allocator = record { free_element = null; lock_initialized = false; next_at = λ p. null }

-- `fresh` is what `snow_malloc(page_size)` returns where it is called.
unfoldable pub fixed_alloc : FixedAlloc → (fresh : Word) → Word × FixedAlloc
fixed_alloc a fresh =
    if a.free_element == null then (fresh, record a { lock_initialized = true }) else (
      a.free_element,
      record a { lock_initialized = true; free_element = a.next_at a.free_element },
    )

abbrev pub write_link : (Word → Word) → Word → Word → Word → Word
write_link next_at p v q = if q == p then v else next_at q

unfoldable pub fixed_free : FixedAlloc → Word → Result FixedAlloc
fixed_free a p = if p == null then ok a else (do
  assert a.lock_initialized
  ok (record a { free_element = p; next_at = write_link a.next_at p a.free_element }))
