-- ===== src/Mark/Everything.antt =====
-- The mark phase: the stacks of all tasks and the definite roots.
use snow.Base.{
  Bool, Bool-cases, List, Option, Returns, Returns-bind, Returns-mono, [], arith, false,
  if◌then◌else◌, inl, inr, length, none, ok, refl, returns, subst, true, ℕ, ◌%◌, ◌++◌, ◌+◌, ◌<◌,
  ◌==◌, ◌↔◌, ◌∷◌, ◌≡◌, ◌≢◌, ◌≤◌,
}
use mathlib.Core.List.{Memᴰ}
use mathlib.Core.List.Memᴰ
use snow.Mark.{
  Allocation, Marks, Stack, each_word, mark_everything, mark_root, stack_words_do, task_stacks_do,
  with_stack_do,
}
use snow.Mark.Lists.{IsMarked, failing_at_most, white, white-keeps}
use snow.Mark.Live.{
  Counted, IsPinned, LiveFrom, PointsTo, Swept, Swept-append, Swept-none, live_inside, live_root,
  not_both,
}
use snow.Mark.Reach.{Listed, Readable, WordMarked, each_word-Swept, mark_root-WordMarked, unfound}
use snow.Array.{u32_mod}
use snow.Value.{Word}

abbrev pub words_of_stacks : List Stack → List Word
words_of_stacks [] = []
words_of_stacks (k ∷ ks) = k.stack_words ++ words_of_stacks ks

-- The ends of a stack are there, and aligned.
pub record IsStack (k : Stack) : Type 0 where
  pub top_aligned : k.stack_top % 16 ≡ 0
  pub bottom_aligned : k.stack_bottom % 16 ≡ 0
  pub top_there : k.stack_top ≢ 0
  pub bottom_there : k.stack_bottom ≢ 0

abbrev pub AreStacks : List Stack → Type 0
AreStacks [] = Unit
AreStacks (k ∷ ks) = IsStack k × AreStacks ks

-- No object is marked or indefinite.
abbrev pub IsClean : Marks → Type 0
IsClean s = (o : Word) → ((s.flags_at o).gc_mark ≡ false) × ((s.flags_at o).gc_indefinite ≡ false)

nonzero : (k : Word) → k ≢ 0 → (k == 0) ≡ false
nonzero k h = ground arith

module _ (find : Word → Option Word) (heap_of : Word → ℕ) (allocation_at : Word → Allocation)
    (maybe_contains : Word → Bool) (all : List Word) where
  -- `gc_find_heap` finds nothing outside of the bounds.
  abbrev pub Bounded : Type 0
  Bounded = (w : Word) → maybe_contains w ≡ false → find w ≡ none

  -- Words of stacks are swept, and their objects are indefinite.
  record Stacked (ws : List Word) (s t : Marks) : Type 0 where
    stack_swept : Swept find heap_of allocation_at all ws s t
    stack_pinned :
        (w : Word) → Memᴰ w ws → (o : Word) → PointsTo find heap_of allocation_at w o → IsPinned t o

  Stacked-append :
      {ws vs : List Word} {s t u : Marks} → Stacked ws s t → Stacked vs t u → Stacked (ws ++ vs) s u
  Stacked-append {ws} f g = record {
    stack_swept = Swept-append find heap_of allocation_at all f.stack_swept g.stack_swept;
    stack_pinned = λ w m o p. elim (Memᴰ.append_cases ws m) [
      | inl early ↦ g.stack_swept.pins o (f.stack_pinned w early o p)
      | inr late ↦ g.stack_pinned w late o p
    ];
  }

  Stacked-none : (s : Marks) → Stacked [] s s
  Stacked-none s = record {
    stack_swept = Swept-none find heap_of allocation_at all s;
    stack_pinned = λ w m. absurd (Memᴰ.not-nil m);
  }

  WordMarked-Stacked :
      {w : Word} {s t : Marks}
      → WordMarked find heap_of allocation_at maybe_contains all true w s t
      → Stacked (w ∷ []) s t
  WordMarked-Stacked {t} f = record {
    stack_swept = f.swept;
    stack_pinned = λ v m o p.
        f.pinned refl o
          (subst (λ x. PointsTo find heap_of allocation_at x o) (Memᴰ.eq_of_singleton m) p);
  }

  -- After the mark phase: an object is marked if and only if the words of the stacks and the roots lead
  -- to it; the objects that stacks point to are indefinite, and their heaps count that.
  pub record Phase (stacks : List Stack) (roots : List Word) (t : Marks) : Type 0 where
    pub marked_live :
        (o : Word)
        → IsMarked t o ↔ LiveFrom find heap_of allocation_at (words_of_stacks stacks ++ roots) o
    pub stack_indefinite :
        (w : Word)
        → Memᴰ w (words_of_stacks stacks)
        → (o : Word) → PointsTo find heap_of allocation_at w o
        → IsPinned t o × (0 < t.num_indefinite (heap_of o))

  module _ (listed : Listed find heap_of allocation_at maybe_contains all)
      (readable : Readable find heap_of allocation_at maybe_contains all) (bounded : Bounded) where
    mark_root-Stacked :
        (n : ℕ) (w : Word) (s : Marks)
        → white s all < n
        → Returns (WordMarked find heap_of allocation_at maybe_contains all true w s) (
            if maybe_contains w
            then mark_root find heap_of allocation_at maybe_contains n true w s
            else ok s)
    mark_root-Stacked n w s few = elim (Bool-cases (maybe_contains w)) [
      | inl within ↦ rw within (
          mark_root-WordMarked find heap_of allocation_at maybe_contains all n true w s listed
            readable few)
      | inr outside ↦
          rw outside
            (returns (unfound find heap_of allocation_at maybe_contains all s (bounded w outside)))
    ]

    stack_words_do-Stacked :
        (n : ℕ) (ws : List Word) (s : Marks)
        → white s all < n
        → Returns (Stacked ws s) (
            stack_words_do find heap_of allocation_at maybe_contains
              (mark_root find heap_of allocation_at maybe_contains n true)
              ws
              s)
    unfolding stack_words_do
    stack_words_do-Stacked n [] s few = returns (Stacked-none s)
    stack_words_do-Stacked n (w ∷ ws) s few = Returns-bind (mark_root-Stacked n w s few) (λ t f.
        Returns-mono
          (stack_words_do-Stacked n ws t (omega (arith, white-keeps s t all f.swept.keeps)))
          (λ u g. Stacked-append (WordMarked-Stacked f) g))

    task_stacks_do-Stacked :
        (n : ℕ) (ks : List Stack) (s : Marks)
        → AreStacks ks
        → white s all < n
        → Returns (Stacked (words_of_stacks ks) s) (
            task_stacks_do find heap_of allocation_at maybe_contains
              (mark_root find heap_of allocation_at maybe_contains n true)
              ks
              s)
    unfolding task_stacks_do with_stack_do
    task_stacks_do-Stacked n [] s are few = returns (Stacked-none s)
    task_stacks_do-Stacked n (k ∷ ks) s (is, are) few =
        rw
          (
            nonzero k.stack_top is.top_there,
            nonzero k.stack_bottom is.bottom_there,
            is.bottom_aligned,
            is.top_aligned,
          )
          (Returns-bind (stack_words_do-Stacked n k.stack_words s few) (λ t f.
            Returns-mono
              (task_stacks_do-Stacked n ks t are
                (omega (arith, white-keeps s t all f.stack_swept.keeps)))
              (λ u g. Stacked-append f g)))

    roots-Swept :
        (n : ℕ) (roots : List Word) (s : Marks)
        → white s all < n
        → Returns
            (Swept find heap_of allocation_at all roots s)
            (each_word (mark_root find heap_of allocation_at maybe_contains n false) roots s)
    roots-Swept n roots s few =
        each_word-Swept find heap_of allocation_at maybe_contains all
          (mark_root find heap_of allocation_at maybe_contains n false) n roots s
          (λ w t less.
            Returns-mono
              (mark_root-WordMarked find heap_of allocation_at maybe_contains all n false w t listed
                readable less)
              (λ u m. m.swept))
          few

    live-IsMarked :
        {ws : List Word} {s t : Marks} {o : Word}
        → IsClean s
        → Swept find heap_of allocation_at all ws s t
        → LiveFrom find heap_of allocation_at ws o
        → IsMarked t o
    live-IsMarked {o} clean f (live_root w m p) = f.handles w m o p
    live-IsMarked {o} clean f (live_inside p vs w l c m q) =
        f.closed p (clean p).0 (live-IsMarked clean f l) vs c w m o q

    white_at_most : (s : Marks) → white s all ≤ length all
    white_at_most s = failing_at_most (λ o. (s.flags_at o).gc_mark) all

    clean-Counted :
        (s : Marks)
        → IsClean s
        → ((heap : ℕ) → s.num_indefinite heap + length all < u32_mod)
        → Counted heap_of all s
    clean-Counted s clean room = record {
      room = λ k. omega (arith, room k, failing_at_most (λ o. (s.flags_at o).gc_indefinite) all);
      each = λ o p. absurd (not_both (clean o).1 p);
    }

    -- If all objects are in a list shorter than the fuel, their contents can be listed, no object is
    -- marked, the counts of indefinite objects have room for all objects in 32 bits, stacks have aligned
    -- ends and nothing is found outside of the bounds, then the mark phase returns, and exactly the objects that stacks and roots lead to are marked; the objects that stacks
    -- point to are indefinite, and each heap of one of them counts it.
    pub mark_everything-Phase :
        (n : ℕ) (stacks : List Stack) (roots : List Word) (s : Marks)
        → AreStacks stacks
        → IsClean s
        → ((heap : ℕ) → s.num_indefinite heap + length all < u32_mod)
        → length all < n
        → Returns
            (Phase stacks roots)
            (mark_everything find heap_of allocation_at maybe_contains n stacks roots s)
    unfolding mark_everything
    mark_everything-Phase n stacks roots s are clean room enough =
        Returns-bind (task_stacks_do-Stacked n stacks s are (omega (arith, white_at_most s)))
          (λ t f. Returns-mono (roots-Swept n roots t (omega (arith, white_at_most t))) (λ u g.
            let both = Swept-append find heap_of allocation_at all f.stack_swept g in
            let counted : Counted heap_of all u = both.counts (clean-Counted s clean room) in
            record {
              marked_live = λ o. (both.sound o (clean o).0, live-IsMarked clean both);
              stack_indefinite = λ w m o p.
                  let pin = g.pins o (f.stack_pinned w m o p) in (pin, (counted.each o pin).1);
            }))
