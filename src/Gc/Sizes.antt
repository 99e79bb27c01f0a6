-- ===== src/Gc/Sizes.antt =====
-- The rounding of sizes of snow/gc.h.
use snow.Base.{arith, ℕ, ◌%◌, ◌+◌, ◌<◌, ◌≡◌, ◌≤◌}
use snow.Gc.{snow_gc_round, uintx_mod}
use snow.GcHeap.{gc_alignment}

pub record Rounded (size rounded : ℕ) : Type 0 where
  pub aligned : rounded % gc_alignment ≡ 0
  pub at_least : size ≤ rounded
  pub closest : rounded < size + gc_alignment

-- A size is rounded to the next multiple of the alignment, as long as the size and one alignment more
-- fit 64 bits.
pub snow_gc_round-Rounded :
    (size : ℕ) → size + gc_alignment < uintx_mod → Rounded size (snow_gc_round size)
unfolding snow_gc_round
snow_gc_round-Rounded size small = record {
  aligned = omega arith;
  at_least = omega arith;
  closest = omega arith;
}
