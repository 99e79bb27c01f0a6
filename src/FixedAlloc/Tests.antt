-- ===== src/FixedAlloc/Tests.antt =====
-- Tests of the allocator of blocks.
use snow.Base.{[], arith, true, ◌∷◌}
use snow.FixedAlloc.{FixedAlloc, fixed_alloc, fixed_allocator}
use snow.FixedAlloc.Blocks.{Reach, Reach-Sound, Sound, extends, starts, steps}
use snow.Value.{null}

abbrev one_block : FixedAlloc
one_block = record { free_element = null; lock_initialized = true; next_at = λ p. null }

-- A caller holds the block at 64.
one_block-Reach : Reach (record { allocator = one_block; live = 64 ∷ [] }) []
unfolding fixed_alloc
one_block-Reach = steps _ _ [] [] starts (extends fixed_allocator [] 64 (omega arith) tt)

Reach-Sound_example : Sound (record { allocator = one_block; live = 64 ∷ [] }) []
Reach-Sound_example = Reach-Sound one_block-Reach
