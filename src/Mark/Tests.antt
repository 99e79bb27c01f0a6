-- ===== src/Mark/Tests.antt =====
-- Tests of marking: a string at 32 whose data is at 64, an array at 96 that nothing points to.
use snow.Base.{
  List, Option, Returns, [], arith, false, if◌then◌else◌, inl, inr, none, refl, returns, some, true,
  ◌==◌, ◌||◌, ◌∷◌, ◌≡◌, ◌⊎◌,
}
use mathlib.Core.List.{Memᴰ}
use snow.Mark.{
  Allocation, Marks, Stack, contents, gc_atomic, gc_object, mark_everything, object_slots,
}
use snow.Mark.Everything.{AreStacks, Bounded, Phase, mark_everything-Phase}
use snow.Mark.Reach.{Listed, Readable}
use snow.Value.{Word, is_object, string_type}

abbrev three_objects : List Word
three_objects = 32 ∷ 64 ∷ 96 ∷ []

-- Words point to objects at their starts.
abbrev find_start : Word → Option Word
find_start w = if w == 32 || (w == 64) || (w == 96) then some w else none

abbrev string_object : Allocation
string_object = record {
  alloc_type = gc_object;
  type = string_type;
  count = 0;
  slot_at = λ k. 64;
  blob_words = [];
}

abbrev atomic_data : Allocation
atomic_data = record {
  alloc_type = gc_atomic;
  type = string_type;
  count = 0;
  slot_at = λ k. 0;
  blob_words = [];
}

abbrev small_heap : Word → Allocation
small_heap o = if o == 32 then string_object else atomic_data

abbrev clean_marks : Marks
clean_marks = record {
  flags_at = λ o. record {
    gc_mark = false;
    gc_transplanted = false;
    gc_updated = false;
    gc_indefinite = false;
  };
  num_indefinite = λ h. 0;
  num_reachable = λ h. 0;
  stats_indefinites = 0;
  stats_survived = 0;
}

abbrev one_stack : List Stack
one_stack = record { stack_bottom = 160; stack_top = 176; stack_words = 7 ∷ 32 ∷ [] } ∷ []

one_stack-AreStacks : AreStacks one_stack
one_stack-AreStacks = (
  record { top_aligned = refl; bottom_aligned = refl; top_there = λ e. cc; bottom_there = λ e. cc },
  tt,
)

one_of : (w o : Word) → find_start w ≡ some o → (o ≡ 32) ⊎ (o ≡ 64) ⊎ (o ≡ 96)
one_of w o e = ground arith

all_listed : Listed find_start (λ o. 0) small_heap (λ w. true) three_objects
all_listed w o e = elim (one_of w o e) [
  | inl a ↦ Memᴰ.head a
  | inr (inl b) ↦ Memᴰ.tail (Memᴰ.head b)
  | inr (inr c) ↦ Memᴰ.tail (Memᴰ.tail (Memᴰ.head c))
]

all_readable : Readable find_start (λ o. 0) small_heap (λ w. true) three_objects
unfolding contents object_slots is_object
all_readable w o p = elim (one_of w o p.found) [
  | inl a ↦ rw a (returns tt)
  | inr (inl b) ↦ rw b (returns tt)
  | inr (inr c) ↦ rw c (returns tt)
]

nothing_outside : Bounded find_start (λ o. 0) small_heap (λ w. true) three_objects
nothing_outside w e = cc

mark_everything-Phase_example :
    Returns
      (Phase find_start (λ o. 0) small_heap (λ w. true) three_objects one_stack [])
      (mark_everything find_start (λ o. 0) small_heap (λ w. true) 4 one_stack [] clean_marks)
mark_everything-Phase_example =
    mark_everything-Phase find_start (λ o. 0) small_heap (λ w. true) three_objects all_listed
      all_readable nothing_outside 4 one_stack [] clean_marks one_stack-AreStacks
      (λ o. (refl, refl)) (λ heap. omega arith) (omega arith)
