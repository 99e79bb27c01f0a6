-- ===== src/Mark/Step.antt =====
-- What setting the flags of one object does to the marks.
use snow.Base.{
  Bool, Bool-cases, List, ap, arith, false, if◌then◌else◌, inl, inr, refl, subst, sym, true, ℕ, ◌%◌,
  ◌&&◌, ◌+◌, ◌<◌, ◌==◌, ◌∙◌, ◌≡◌, ◌≤◌, ◌⊎◌,
}
use snow.Mark.{GcFlags, Marks, adds_flags, marked_flags, set_marks}
use snow.Value.{Word}
use snow.Mark.Live.{Counted, IsPinned, not_both}
use snow.Mark.Lists.{IsMarked, definite, failing_less, failing_mono}
use mathlib.Core.List.{Memᴰ}
use snow.Array.{u32_mod}

-- The flags of that object after it.
abbrev pub flags_then : Bool → Word → Marks → Word → GcFlags
flags_then b o s x = if x == o then marked_flags b (s.flags_at x) else s.flags_at x

same_flags : (b : Bool) (f : GcFlags) → adds_flags b f ≡ false → f ≡ marked_flags b f
same_flags b f h = ground arith

pub set_marks-flags_then :
    (b : Bool) (h : ℕ) (o : Word) (s : Marks) (x : Word)
    → (set_marks b h o s).flags_at x ≡ flags_then b o s x
unfolding set_marks
set_marks-flags_then b h o s x = ground arith

pub marks_it : (b : Bool) (h : ℕ) (o : Word) (s : Marks) → IsMarked (set_marks b h o s) o
marks_it b h o s = rw (set_marks-flags_then b h o s o) (ground arith)

pub pins_it : (h : ℕ) (o : Word) (s : Marks) → IsPinned (set_marks true h o s) o
pins_it h o s = rw (set_marks-flags_then true h o s o) (ground arith)

pub set_keeps :
    (b : Bool) (h : ℕ) (o : Word) (s : Marks) (x : Word)
    → IsMarked s x
    → IsMarked (set_marks b h o s) x
set_keeps b h o s x m = rw (set_marks-flags_then b h o s x) (ground arith)

pub set_pins :
    (b : Bool) (h : ℕ) (o : Word) (s : Marks) (x : Word)
    → IsPinned s x
    → IsPinned (set_marks b h o s) x
set_pins b h o s x m = rw (set_marks-flags_then b h o s x) (ground arith)

-- Only that object is new.
pub newly-IsMarked :
    (b : Bool) (h : ℕ) (o : Word) (s : Marks) (x : Word)
    → (s.flags_at x).gc_mark ≡ false
    → IsMarked (set_marks b h o s) x
    → x ≡ o
newly-IsMarked b h o s x w m =
    let e : (flags_then b o s x).gc_mark ≡ true =
      ap (λ f. f.gc_mark) (sym (set_marks-flags_then b h o s x)) ∙ m in
    ground (arith, e)

newly-IsPinned :
    (b : Bool) (h : ℕ) (o : Word) (s : Marks) (x : Word)
    → IsPinned (set_marks b h o s) x
    → IsPinned s x ⊎ ((x ≡ o) × (b ≡ true) × ((s.flags_at o).gc_indefinite ≡ false))
newly-IsPinned b h o s x m =
    let e : (flags_then b o s x).gc_indefinite ≡ true =
      ap (λ f. f.gc_indefinite) (sym (set_marks-flags_then b h o s x)) ∙ m in
    ground (arith, e)

-- The count of a heap after a definite object: one more if the object is indefinite then.
count_then :
    (b : Bool) (h : ℕ) (o : Word) (s : Marks) (k : ℕ)
    → (s.flags_at o).gc_indefinite ≡ false
    → (set_marks b h o s).num_indefinite k
      ≡ (if b && (k == h) then (s.num_indefinite k + 1) % u32_mod else s.num_indefinite k)
unfolding set_marks
count_then b h o s k e = ground arith

-- Nothing is left to add to an object that is indefinite and marked.
set_marks_again :
    (b : Bool) (h : ℕ) (o : Word) (s : Marks) → IsMarked s o → IsPinned s o → set_marks b h o s ≡ s
unfolding set_marks
set_marks_again b h o s m p = rw (m, p) (ground arith)

definite-set_marks :
    (b : Bool) (h : ℕ) (o : Word) (s : Marks) (all : List Word)
    → definite (set_marks b h o s) all ≤ definite s all
definite-set_marks b h o s all =
    failing_mono (λ x. (s.flags_at x).gc_indefinite)
      (λ x. ((set_marks b h o s).flags_at x).gc_indefinite) all (set_pins b h o s)

definite_less :
    (h : ℕ) (o : Word) (s : Marks) (all : List Word)
    → Memᴰ o all
    → (s.flags_at o).gc_indefinite ≡ false
    → definite (set_marks true h o s) all < definite s all
definite_less h o s all i e =
    failing_less (λ x. (s.flags_at x).gc_indefinite)
      (λ x. ((set_marks true h o s).flags_at x).gc_indefinite) all o (set_pins true h o s) i e
      (pins_it h o s)

module _ (heap_of : Word → ℕ) (all : List Word) where
  -- Each object is counted once, so the counts never wrap around.
  new-Counted :
      (b : Bool) (o : Word) (s : Marks)
      → Memᴰ o all
      → (s.flags_at o).gc_indefinite ≡ false
      → Counted heap_of all s
      → Counted heap_of all (set_marks b (heap_of o) o s)
  new-Counted false o s i e c = record {
    room = λ k.
        rw (count_then false (heap_of o) o s k e)
          (omega (arith, c.room k, definite-set_marks false (heap_of o) o s all));
    each = λ x m. elim (newly-IsPinned false (heap_of o) o s x m) [
      | inl p ↦ (
        set_keeps false (heap_of o) o s x (c.each x p).0,
        rw (count_then false (heap_of o) o s (heap_of x) e) (c.each x p).1,
      )
      | inr (q, never, f) ↦ absurd (not_both refl never)
    ];
  }
  new-Counted true o s i e c =
      let less = definite_less (heap_of o) o s all i e in
      record {
        room = λ k. rw (count_then true (heap_of o) o s k e) (ground (arith, c.room k, less));
        each = λ x m. elim (newly-IsPinned true (heap_of o) o s x m) [
          | inl p ↦ (
            set_keeps true (heap_of o) o s x (c.each x p).0,
            rw (count_then true (heap_of o) o s (heap_of x) e)
                (ground (arith, c.room (heap_of x), less, (c.each x p).1)),
          )
          | inr (q, t, f) ↦ rw q (
            marks_it true (heap_of o) o s,
            rw (count_then true (heap_of o) o s (heap_of o) e)
                (ground (arith, c.room (heap_of o), less)),
          )
        ];
      }

  pub set_marks-Counted :
      (b : Bool) (o : Word) (s : Marks)
      → Memᴰ o all
      → Counted heap_of all s
      → Counted heap_of all (set_marks b (heap_of o) o s)
  set_marks-Counted b o s i c = elim (Bool-cases (s.flags_at o).gc_indefinite) [
    | inl p ↦
        subst (Counted heap_of all) (sym (set_marks_again b (heap_of o) o s (c.each o p).0 p)) c
    | inr e ↦ new-Counted b o s i e c
  ]
