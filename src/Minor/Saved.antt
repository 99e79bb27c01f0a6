-- ===== src/Minor/Saved.antt =====
-- Heaps with indefinite objects are saved.
use snow.Base.{
  Bool, List, Option, Returns, Returns-mono, [], ap, arith, false, inl, inr, length, ltb, refl,
  subst, sym, true, ℕ, ◌+◌, ◌<◌, ◌∷◌, ◌≡◌, ◌⊎◌,
}
use mathlib.Core.List.{Memᴰ}
use snow.Minor.{NurseryState, cleared_heap, gc_reset_or_save_nurseries, reset_or_save}
use snow.GcHeap.{GcHeap}
use snow.Mark.{Allocation, Marks, Stack, mark_everything}
use snow.Array.{u32_mod}
use snow.Mark.Everything.{AreStacks, Bounded, IsClean, mark_everything-Phase, words_of_stacks}
use snow.Mark.Reach.{Listed, Readable}
use snow.Mark.Live.{PointsTo, not_both}
use snow.Value.{Word, null}

-- Saving keeps what was saved before.
still_saved :
    (b : Bool) (i : ℕ) (g : GcHeap) (n : NurseryState) (h : GcHeap)
    → Memᴰ h n.unkillables
    → Memᴰ h (reset_or_save b i g n).unkillables
still_saved true i g n h m = Memᴰ.tail m
still_saved false i g n h m = m

saved_stays :
    (num : ℕ → ℕ) (hs : List (ℕ × GcHeap)) (n : NurseryState) (h : GcHeap)
    → Memᴰ h n.unkillables
    → Memᴰ h (gc_reset_or_save_nurseries num hs n).unkillables
unfolding gc_reset_or_save_nurseries
saved_stays num [] n h m = m
saved_stays num ((i, g) ∷ hs) n h m =
    saved_stays num hs (reset_or_save (ltb 0 (num i)) i g n) h
      (still_saved (ltb 0 (num i)) i g n h m)

newly_saved :
    (b : Bool) (i : ℕ) (g : GcHeap) (n : NurseryState)
    → b ≡ true
    → Memᴰ g (reset_or_save b i g n).unkillables
newly_saved true i g n e = Memᴰ.head refl
newly_saved false i g n e = absurd (not_both refl e)

pub counted_saved :
    (num : ℕ → ℕ) (hs : List (ℕ × GcHeap)) (n : NurseryState) (i : ℕ) (h : GcHeap)
    → Memᴰ (i, h) hs
    → 0 < num i
    → Memᴰ h (gc_reset_or_save_nurseries num hs n).unkillables
unfolding gc_reset_or_save_nurseries
counted_saved num [] n i h m counted = elim m [ ]
counted_saved num ((j, g) ∷ hs) n i h (Memᴰ.head e) counted =
    let same : i ≡ j = ap (λ x. x.0) e in
    let yes_counted : ltb 0 (num j) ≡ true = ground (arith, ap num same, counted) in
    saved_stays num hs (reset_or_save (ltb 0 (num j)) j g n) h (
      subst (λ x. Memᴰ x (reset_or_save (ltb 0 (num j)) j g n).unkillables) (sym (ap (λ x. x.1) e))
        (newly_saved (ltb 0 (num j)) j g n yes_counted))
counted_saved num ((j, g) ∷ hs) n i h (Memᴰ.tail m) counted =
    counted_saved num hs (reset_or_save (ltb 0 (num j)) j g n) i h m counted

-- A counted nursery is empty afterwards: the memory has one owner.
still_new :
    (b : Bool) (i : ℕ) (g : GcHeap) (n : NurseryState) (x : ℕ × GcHeap)
    → Memᴰ x n.new_nurseries
    → Memᴰ x (reset_or_save b i g n).new_nurseries
still_new true i g n x m = Memᴰ.tail m
still_new false i g n x m = Memᴰ.tail m

new_stays :
    (num : ℕ → ℕ) (hs : List (ℕ × GcHeap)) (n : NurseryState) (x : ℕ × GcHeap)
    → Memᴰ x n.new_nurseries
    → Memᴰ x (gc_reset_or_save_nurseries num hs n).new_nurseries
unfolding gc_reset_or_save_nurseries
new_stays num [] n x m = m
new_stays num ((i, g) ∷ hs) n x m =
    new_stays num hs (reset_or_save (ltb 0 (num i)) i g n) x (still_new (ltb 0 (num i)) i g n x m)

newly_cleared :
    (b : Bool) (i : ℕ) (g : GcHeap) (n : NurseryState)
    → b ≡ true
    → Memᴰ (i, cleared_heap) (reset_or_save b i g n).new_nurseries
newly_cleared true i g n e = Memᴰ.head refl
newly_cleared false i g n e = absurd (not_both refl e)

counted_cleared :
    (num : ℕ → ℕ) (hs : List (ℕ × GcHeap)) (n : NurseryState) (i : ℕ) (h : GcHeap)
    → Memᴰ {A = ℕ × GcHeap} (i, h) hs
    → 0 < num i
    → Memᴰ {A = ℕ × GcHeap} (i, cleared_heap) (gc_reset_or_save_nurseries num hs n).new_nurseries
unfolding gc_reset_or_save_nurseries
counted_cleared num [] n i h m counted = elim m [ ]
counted_cleared num ((j, g) ∷ hs) n i h (Memᴰ.head e) counted =
    let same : i ≡ j = ap (λ x. x.0) e in
    let yes_counted : ltb 0 (num j) ≡ true = ground (arith, ap num same, counted) in
    let after = reset_or_save (ltb 0 (num j)) j g n in
    new_stays num hs after (i, cleared_heap)
      (subst (λ k. Memᴰ {A = ℕ × GcHeap} (k, cleared_heap) after.new_nurseries) (sym same)
        (newly_cleared (ltb 0 (num j)) j g n yes_counted))
counted_cleared num ((j, g) ∷ hs) n i h (Memᴰ.tail m) counted =
    counted_cleared num hs (reset_or_save (ltb 0 (num j)) j g n) i h m counted

-- A heap that is given back was there before, or is a nursery with a count of zero.
newly_given :
    (b : Bool) (i : ℕ) (g : GcHeap) (n : NurseryState) (h : GcHeap)
    → Memᴰ h (reset_or_save b i g n).given_back
    → Memᴰ h n.given_back ⊎ ((b ≡ false) × (h ≡ g))
newly_given true i g n h m = inl m
newly_given false i g n h (Memᴰ.head e) = inr (refl, e)
newly_given false i g n h (Memᴰ.tail m) = inl m

uncounted_given :
    (num : ℕ → ℕ) (hs : List (ℕ × GcHeap)) (n : NurseryState) (h : GcHeap)
    → Memᴰ h (gc_reset_or_save_nurseries num hs n).given_back
    → Memᴰ h n.given_back ⊎ ((i : ℕ) × Memᴰ (i, h) hs × (num i ≡ 0))
unfolding gc_reset_or_save_nurseries
uncounted_given num [] n h m = inl m
uncounted_given num ((j, g) ∷ hs) n h m =
    elim (uncounted_given num hs (reset_or_save (ltb 0 (num j)) j g n) h m) [
      | inl early ↦ elim (newly_given (ltb 0 (num j)) j g n h early) [
        | inl before ↦ inl before
        | inr (zero_count, same) ↦
            inr (j, Memᴰ.head (ap (λ x. (j, x)) same), ground (arith, zero_count))
      ]
      | inr (i, later, zero_count) ↦ inr (i, Memᴰ.tail later, zero_count)
    ]

abbrev pub NoChunks : List (ℕ × GcHeap) → Type 0
NoChunks [] = Unit
NoChunks ((i, h) ∷ hs) = (h.start ≡ null) × NoChunks hs

one_more_empty :
    (b : Bool) (i : ℕ) (g : GcHeap) (n : NurseryState)
    → NoChunks n.new_nurseries
    → NoChunks (reset_or_save b i g n).new_nurseries
one_more_empty true i g n e = (refl, e)
one_more_empty false i g n e = (refl, e)

-- Saved or reset, a nursery has no chunk afterwards, which is what allocation needs of a collection.
pub gc_reset_or_save_nurseries-NoChunks :
    (num : ℕ → ℕ) (hs : List (ℕ × GcHeap)) (n : NurseryState)
    → NoChunks n.new_nurseries
    → NoChunks (gc_reset_or_save_nurseries num hs n).new_nurseries
unfolding gc_reset_or_save_nurseries
gc_reset_or_save_nurseries-NoChunks num [] n e = e
gc_reset_or_save_nurseries-NoChunks num ((i, g) ∷ hs) n e =
    gc_reset_or_save_nurseries-NoChunks num hs (reset_or_save (ltb 0 (num i)) i g n)
      (one_more_empty (ltb 0 (num i)) i g n e)

module _ (find : Word → Option Word) (heap_of : Word → ℕ) (allocation_at : Word → Allocation)
    (maybe_contains : Word → Bool) (all : List Word) where
  -- The heap of the nursery is saved, its memory is not given back, and the nursery has no chunk then.
  abbrev pub IsSaved : List (ℕ × GcHeap) → NurseryState → ℕ → GcHeap → Marks → Type 0
  IsSaved hs n k h t =
      let after = gc_reset_or_save_nurseries t.num_indefinite hs n in
      Memᴰ h after.unkillables
      × (¬ Memᴰ h after.given_back)
      × Memᴰ {A = ℕ × GcHeap} (k, cleared_heap) after.new_nurseries

  counted-IsSaved :
      (hs : List (ℕ × GcHeap)) (n : NurseryState) (t : Marks) (k : ℕ) (h : GcHeap)
      → Memᴰ (k, h) hs
      → ((i : ℕ) → Memᴰ (i, h) hs → i ≡ k)
      → ¬ Memᴰ h n.given_back
      → 0 < t.num_indefinite k
      → IsSaved hs n k h t
  counted-IsSaved hs n t k h i only here counted = (
    counted_saved t.num_indefinite hs n k h i counted,
    λ m. elim (uncounted_given t.num_indefinite hs n h m) [
      | inl before ↦ here before
      | inr (j, there, zero_count) ↦
          let same = ap t.num_indefinite (only j there) in absurd (omega (arith, zero_count, same))
    ],
    counted_cleared t.num_indefinite hs n k h i counted,
  )

  -- If all objects are in a list shorter than the fuel, their contents can be listed, no object is marked,
  -- the counts of indefinite objects have room for all objects in 32 bits, stacks have aligned ends and
  -- nothing is found outside of the bounds, then the mark phase returns; and with its counts, resetting or
  -- saving the nurseries saves a nursery that has an object to which a word of a task's stack points: its
  -- heap is among the unkillables, its memory is not given back, and the nursery is cleared, if the heap
  -- stands in the list under this number alone and was not given back before.
  pub gc_reset_or_save_nurseries-mark_everything :
      (n : ℕ) (stacks : List Stack) (roots : List Word) (s : Marks) (hs : List (ℕ × GcHeap))
      (before : NurseryState) (w o : Word) (h : GcHeap)
      → Listed find heap_of allocation_at maybe_contains all
      → Readable find heap_of allocation_at maybe_contains all
      → Bounded find heap_of allocation_at maybe_contains all
      → AreStacks stacks
      → IsClean s
      → ((heap : ℕ) → s.num_indefinite heap + length all < u32_mod)
      → length all < n
      → Memᴰ w (words_of_stacks stacks)
      → PointsTo find heap_of allocation_at w o
      → Memᴰ (heap_of o, h) hs
      → ((i : ℕ) → Memᴰ (i, h) hs → i ≡ heap_of o)
      → ¬ Memᴰ h before.given_back
      → Returns
          (IsSaved hs before (heap_of o) h)
          (mark_everything find heap_of allocation_at maybe_contains n stacks roots s)
  gc_reset_or_save_nurseries-mark_everything n stacks roots s hs before w o h listed readable
        bounded are clean room enough m p i only new =
      Returns-mono
        (mark_everything-Phase find heap_of allocation_at maybe_contains all listed readable bounded
          n stacks roots s are clean room enough)
        (λ t f. counted-IsSaved hs before t (heap_of o) h i only new (f.stack_indefinite w m o p).1)
