-- ===== src/Minor/Pointers.antt =====
-- Pointers into moved objects follow them.
use snow.Base.{
  Option, Returns, ap, arith, false, returns, some, true, ℕ, ◌+◌, ◌-◌, ◌<◌, ◌∙◌, ◌≡◌, ◌≤◌, ◌⊎◌,
}
use snow.Header.{info_size}
use snow.Header.Checksum.{FewBits}
use snow.Mark.{Allocation, GcFlags, is_stale}
use snow.Minor.{updated_root}
use snow.Sweep.{move_object}
use snow.Sweep.Moved.{move_object-Forwarded}
use snow.Value.{Word}

-- The words of an object before the move and after it, read through a pointer that was updated.
abbrev pub Follows : (ℕ → Word) → (ℕ → Word) → Word → Word → Type 0
Follows before after w w' = after w' ≡ before w

module _ (popcount : Word → ℕ) (free : Word → Word → (ℕ → Word) → (ℕ → Word)) (chunk : Word)
    (heap_of : Word → ℕ) where
  -- For a word outside of stacks that points into the data of an object that was moved to a place apart
  -- from it and is not indefinite, the updated word points to the same contents as before the move.
  pub updated_root-move_object :
      (find : Word → Option Word) (allocation_at : Word → Allocation) (flags_at : Word → GcFlags)
      (m : ℕ → Word) (w object ptr : Word) (index : ℕ)
      → FewBits popcount
      → 16 ≤ object
      → (ptr + 32 + info_size (m (object - 16)) ≤ object - 16)
        ⊎ (object + info_size (m (object - 16)) + 16 ≤ ptr)
      → find w ≡ some object
      → is_stale (allocation_at object).alloc_type ≡ false
      → (flags_at object).gc_transplanted ≡ true
      → (flags_at object).gc_indefinite ≡ false
      → object ≤ w
      → w < object + info_size (m (object - 16))
      → let after = move_object popcount free chunk heap_of m object ptr index in
        Returns (Follows m after w) (updated_root find allocation_at flags_at after false w)
  unfolding updated_root
  updated_root-move_object find allocation_at flags_at m w object ptr index bits high apart found
        fresh moved definite lo hi =
      let f =
        move_object-Forwarded popcount free chunk heap_of m object ptr index bits (omega arith) high
          apart in
      let e : object + (w - object) ≡ w = omega arith in
      rw (updated_root, found, fresh, moved, definite, f.forwards)
        (returns (f.contents_copied (w - object) (omega arith) ∙ ap m e))
