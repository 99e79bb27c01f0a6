-- ===== src/Minor/Tests.antt =====
-- Tests of what follows the sweep, with an object of 32 bytes at 4112 that moves to 8208.
use snow.Base.{
  List, Option, Returns, [], ap, arith, false, if◌then◌else◌, inr, none, refl, returns, some, subst,
  true, ℕ, ◌-◌, ◌==◌, ◌∷◌, ◌≡◌, ◌≢◌,
}
use mathlib.Core.List.{Memᴰ}
use snow.Minor.{NurseryState, updated_root}
use snow.Header.{info_size}
use snow.Header.Bits.{popcount_64, popcount_64-FewBits}
use snow.Mark.{Allocation, GcFlags, Marks, Stack, contents, gc_blob, mark_everything}
use snow.Minor.Pointers.{Follows, updated_root-move_object}
use snow.Sweep.{move_object}
use snow.Value.{Word, array_type}
use snow.GcHeap.{GcHeap, gc_heap_init}
use snow.Mark.Live.{PointsTo}
use snow.Mark.Reach.{Listed, Readable}
use mathlib.Core.List.Memᴰ
use snow.Minor.Saved.{IsSaved, gc_reset_or_save_nurseries-mark_everything}

abbrev one_word : Allocation
one_word = record {
  alloc_type = gc_blob;
  type = array_type;
  count = 0;
  slot_at = λ k. 0;
  blob_words = [];
}

abbrev was_moved : GcFlags
was_moved = record {
  gc_mark = true;
  gc_transplanted = true;
  gc_updated = false;
  gc_indefinite = false;
}

-- Every word reads as its address, but the head of the object, which has its size.
abbrev plain_memory : ℕ → Word
plain_memory x = if x == 4096 then 32 else x

abbrev after_move : ℕ → Word
after_move = move_object popcount_64 (λ f o m. m) 8192 (λ o. 0) plain_memory 4112 8192 0

head_is : info_size (plain_memory (4112 - 16)) ≡ 32
head_is = refl

updated_root-move_object_example :
    Returns
      (Follows plain_memory after_move 4120)
      (updated_root (λ w. some 4112) (λ o. one_word) (λ o. was_moved) after_move false 4120)
updated_root-move_object_example =
    updated_root-move_object popcount_64 (λ f o m. m) 8192 (λ o. 0) (λ w. some 4112) (λ o. one_word)
      (λ o. was_moved) plain_memory 4120 4112 8192 0 popcount_64-FewBits (omega arith)
      (inr (omega (arith, head_is))) refl refl refl refl (omega arith) (omega (arith, head_is))

-- One stack points to an object of the nursery with number 3.
abbrev stack_of_one : List Stack
stack_of_one = record { stack_bottom = 160; stack_top = 176; stack_words = 4112 ∷ [] } ∷ []

abbrev unmarked : Marks
unmarked = record {
  flags_at = λ o. record {
    gc_mark = false;
    gc_transplanted = false;
    gc_updated = false;
    gc_indefinite = false;
  };
  num_indefinite = λ h. 0;
  num_reachable = λ h. 0;
  stats_indefinites = 0;
  stats_survived = 0;
}

-- The nursery with the object at 4112, which is its only one.
abbrev used_nursery : GcHeap
used_nursery = record gc_heap_init { start = 4096; current = 4160; end = 1052672; num_objects = 1 }

abbrev find_one : Word → Option Word
find_one w = if w == 4112 then some 4112 else none

abbrev no_nurseries : NurseryState
no_nurseries = record { new_nurseries = []; unkillables = []; given_back = [] }

found_one : (w o : Word) → find_one w ≡ some o → (o == 4112) ≡ true
found_one w o e = ground arith

one_pointed_to : (o : Word) → (o == 4112) ≡ true → PointsTo find_one (λ o. 3) (λ o. one_word) 4112 o
one_pointed_to o e =
    let same : 4112 ≡ o = ground (arith, e) in
    subst (λ x. PointsTo find_one (λ o. 3) (λ o. one_word) 4112 x) same
      (record { found = refl; fresh = refl })

all_one : Listed find_one (λ o. 3) (λ o. one_word) (λ w. true) (4112 ∷ [])
all_one w o e = Memᴰ.head (ground (arith, found_one w o e))

readable_one : Readable find_one (λ o. 3) (λ o. one_word) (λ w. true) (4112 ∷ [])
unfolding contents
readable_one w o p = returns tt

starts_apart : used_nursery.start ≢ gc_heap_init.start
starts_apart e = omega arith

only_three :
    (i : ℕ)
    → Memᴰ {A = ℕ × GcHeap} (i, used_nursery) ((3, used_nursery) ∷ (5, gc_heap_init) ∷ [])
    → i ≡ 3
only_three i (Memᴰ.head e) = ap (λ x. x.0) e
only_three i (Memᴰ.tail (Memᴰ.head e)) = absurd (starts_apart (ap (λ x. (x.1).start) e))
only_three i (Memᴰ.tail (Memᴰ.tail m)) = absurd (Memᴰ.not-nil m)

gc_reset_or_save_nurseries-mark_everything_example :
    Returns
      (IsSaved find_one
        (λ o. 3)
        (λ o. one_word)
        (λ w. true)
        (4112 ∷ [])
        ((3, used_nursery) ∷ (5, gc_heap_init) ∷ [])
        no_nurseries
        3
        used_nursery)
      (mark_everything find_one (λ o. 3) (λ o. one_word) (λ w. true) 2 stack_of_one [] unmarked)
gc_reset_or_save_nurseries-mark_everything_example =
    gc_reset_or_save_nurseries-mark_everything find_one (λ o. 3) (λ o. one_word) (λ w. true)
      (4112 ∷ []) 2 stack_of_one [] unmarked ((3, used_nursery) ∷ (5, gc_heap_init) ∷ [])
      no_nurseries 4112 4112 used_nursery all_one readable_one (λ w e. cc)
      (
        record {
          top_aligned = refl;
          bottom_aligned = refl;
          top_there = λ e. cc;
          bottom_there = λ e. cc;
        },
        tt,
      )
      (λ o. (refl, refl)) (λ heap. omega arith) (omega arith) (Memᴰ.head refl)
      (one_pointed_to 4112 refl) (Memᴰ.head refl) only_three (λ m. absurd (Memᴰ.not-nil m))
