-- ===== src/Minor.antt =====
-- snow/gc.c: what follows the sweep in a collection of the nurseries: pointers are updated, and the
-- nurseries are reset, or saved if the mark phase has counted indefinite objects in them. Nurseries have
-- the numbers by which the marks count.
pub mod Saved
pub mod Pointers
mod Tests
use snow.Base.{
  Bool, List, Option, Result, [], assert, false, if◌then◌else◌, ltb, none, not, ok, some, true, ℕ,
  ◌+◌, ◌-◌, ◌>>◌, ◌||◌, ◌∷◌,
}
use snow.GcHeap.{GcHeap, gc_heap_finalize, gc_heap_init, gc_heap_list_push_heap}
use snow.Mark.{Allocation, GcFlags, is_stale}
use snow.Value.{Word}

-- The nurseries afterwards, the list `GC.unkillables`, and the heaps whose memory was given back.
pub record NurseryState : Type 0 where
  pub new_nurseries : List (ℕ × GcHeap)
  pub unkillables : List GcHeap
  pub given_back : List GcHeap

-- `memset(heap, 0, sizeof(SnGCHeap))`
abbrev pub cleared_heap : GcHeap
cleared_heap = record gc_heap_init { num_reachable = some 0; num_indefinite = some 0 }

abbrev pub reset_or_save : Bool → ℕ → GcHeap → NurseryState → NurseryState
reset_or_save true i h n = record n {
  new_nurseries = (i, cleared_heap) ∷ n.new_nurseries;
  unkillables = gc_heap_list_push_heap n.unkillables (some h);
}
reset_or_save false i h n = record n {
  new_nurseries = (i, gc_heap_finalize h) ∷ n.new_nurseries;
  given_back = h ∷ n.given_back;
}

-- `gc_reset_or_save_nurseries`; the new list has the nurseries in the other order.
unfoldable pub gc_reset_or_save_nurseries :
    (ℕ → ℕ) → List (ℕ × GcHeap) → NurseryState → NurseryState
gc_reset_or_save_nurseries num_indefinite [] n = n
gc_reset_or_save_nurseries num_indefinite ((i, h) ∷ hs) n =
    gc_reset_or_save_nurseries num_indefinite hs (reset_or_save (ltb 0 (num_indefinite i)) i h n)

-- The beginning of `gc_update_root`, up to the test of `GC_UPDATED`: the value that `*root_p` has then.
unfoldable pub updated_root :
    (Word → Option Word)
    → (Word → Allocation)
    → (Word → GcFlags)
    → (ℕ → Word)
    → Bool
    → Word
    → Result Word
updated_root find allocation_at flags_at m on_stack w = elim (find w) [
  | none ↦ ok w
  | some object ↦ (do
    assert (on_stack || not (is_stale (allocation_at object).alloc_type))
    if (flags_at object).gc_transplanted
        then (do
          assert (not on_stack)
          assert (not (flags_at object).gc_indefinite)
          ok (m object + (w - object)))
        else ok w)
]
