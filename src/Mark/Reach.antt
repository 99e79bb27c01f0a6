-- ===== src/Mark/Reach.antt =====
-- Marking goes to everything that the roots lead to, and to nothing else.
use snow.Base.{
  Bool, Bool-cases, List, Option, Option-cases, Result, Returns, Returns-bind, Returns-mono, [], ap,
  arith, false, if◌then◌else◌, inl, inr, none, ok, refl, returns, some, subst, suc, sym, true, zero,
  ℕ, ◌<◌, ◌>>=◌, ◌∙◌, ◌∷◌, ◌≡◌,
}
use mathlib.Core.List.{Memᴰ}
use mathlib.Core.List.Memᴰ
use snow.Mark.{Allocation, Marks, contents, each_word, is_stale, mark_root, set_marks}
use snow.Mark.Live.{
  IsPinned, LiveFrom, PointsTo, Swept, Swept-append, Swept-none, live_inside, live_root, not_both,
}
use snow.Mark.Step.{marks_it, newly-IsMarked, pins_it, set_keeps, set_marks-Counted, set_pins}
use snow.Value.{Word}
use snow.Mark.Lists.{IsMarked, failing_less, white, white-keeps}

module _ (find : Word → Option Word) (heap_of : Word → ℕ) (allocation_at : Word → Allocation)
    (maybe_contains : Word → Bool) (all : List Word) where
  -- All objects are in the list, and what is in them can be listed.
  abbrev pub Listed : Type 0
  Listed = (w o : Word) → find w ≡ some o → Memᴰ o all

  abbrev pub Readable : Type 0
  Readable =
      (w o : Word)
      → PointsTo find heap_of allocation_at w o
      → Returns (λ ws. Unit {0}) (contents o (allocation_at o))

  some_injective : {a b : Word} → some a ≡ some b → a ≡ b
  some_injective e = cc

  ok_injective : {a b : List Word} → ok a ≡ ok b → a ≡ b
  ok_injective e = cc

  not_some : {a : Word} → ¬ (none ≡ some a)
  not_some e = cc

  -- Nothing happens for a word that points to no object, or to a stale one.
  Swept-nothing :
      (w : Word) (s : Marks)
      → ((o : Word) → ¬ PointsTo find heap_of allocation_at w o)
      → Swept find heap_of allocation_at all (w ∷ []) s s
  Swept-nothing w s h = record {
    keeps = λ o m. m;
    pins = λ o m. m;
    handles = λ v m o p.
        absurd
          (h o (subst (λ x. PointsTo find heap_of allocation_at x o) (Memᴰ.eq_of_singleton m) p));
    closed = λ o f m. absurd (not_both f m);
    sound = λ o f m. absurd (not_both f m);
    counts = λ c. c;
  }

  LiveFrom-through :
      {w o : Word} {ws : List Word} {x : Word}
      → PointsTo find heap_of allocation_at w o
      → contents o (allocation_at o) ≡ ok ws
      → LiveFrom find heap_of allocation_at ws x
      → LiveFrom find heap_of allocation_at (w ∷ []) x
  LiveFrom-through {w} {o} {ws = ws} p c (live_root v m q) =
      live_inside o ws v (live_root w (Memᴰ.head refl) p) c m q
  LiveFrom-through p c (live_inside y vs v l d m q) =
      live_inside y vs v (LiveFrom-through p c l) d m q

  -- The object of a word is marked, then what is in it.
  Swept-object :
      (b : Bool) {w o : Word} {s u : Marks} {ws : List Word}
      → Memᴰ o all
      → PointsTo find heap_of allocation_at w o
      → contents o (allocation_at o) ≡ ok ws
      → Swept find heap_of allocation_at all ws (set_marks b (heap_of o) o s) u
      → Swept find heap_of allocation_at all (w ∷ []) s u
  Swept-object b {w} {o} {s} {u} {ws} known p c f = record {
    keeps = λ x m. f.keeps x (set_keeps b (heap_of o) o s x m);
    pins = λ x m. f.pins x (set_pins b (heap_of o) o s x m);
    handles = λ v m x q.
        let e : o ≡ x =
          some_injective (sym p.found ∙ ap find (sym (Memᴰ.eq_of_singleton m)) ∙ q.found) in
        subst (IsMarked u) e (f.keeps o (marks_it b (heap_of o) o s));
    closed = λ x e m vs d v i.
        elim (Bool-cases ((set_marks b (heap_of o) o s).flags_at x).gc_mark) [
          | inl now ↦
              let same = newly-IsMarked b (heap_of o) o s x e now in
              let listed : vs ≡ ws =
                ok_injective (sym d ∙ ap (λ y. contents y (allocation_at y)) same ∙ c) in
              f.handles v (subst (Memᴰ v) listed i)
          | inr later ↦ f.closed x later m vs d v i
        ];
    sound = λ x e m. elim (Bool-cases ((set_marks b (heap_of o) o s).flags_at x).gc_mark) [
      | inl now ↦ rw (newly-IsMarked b (heap_of o) o s x e now) (live_root w (Memᴰ.head refl) p)
      | inr later ↦ LiveFrom-through p c (f.sound x later m)
    ];
    counts = λ k. f.counts (set_marks-Counted heap_of all b o s known k);
  }

  -- It was marked before.
  Swept-again :
      (b : Bool) {w o : Word} {s : Marks}
      → Memᴰ o all
      → PointsTo find heap_of allocation_at w o
      → IsMarked s o
      → Swept find heap_of allocation_at all (w ∷ []) s (set_marks b (heap_of o) o s)
  Swept-again b {w} {o} {s} known p k = record {
    keeps = set_keeps b (heap_of o) o s;
    pins = set_pins b (heap_of o) o s;
    handles = λ v m x q.
        let e : o ≡ x =
          some_injective (sym p.found ∙ ap find (sym (Memᴰ.eq_of_singleton m)) ∙ q.found) in
        subst (IsMarked (set_marks b (heap_of o) o s)) e (marks_it b (heap_of o) o s);
    closed = λ x e m.
        absurd (not_both e (subst (IsMarked s) (sym (newly-IsMarked b (heap_of o) o s x e m)) k));
    sound = λ x e m.
        absurd (not_both e (subst (IsMarked s) (sym (newly-IsMarked b (heap_of o) o s x e m)) k));
    counts = set_marks-Counted heap_of all b o s known;
  }

  -- What marking a word leaves: it is swept, and from a stack its object is indefinite.
  pub record WordMarked (b : Bool) (w : Word) (s t : Marks) : Type 0 where
    pub swept : Swept find heap_of allocation_at all (w ∷ []) s t
    pub pinned : b ≡ true → (o : Word) → PointsTo find heap_of allocation_at w o → IsPinned t o

  pub each_word-Swept :
      (action : Word → Marks → Result Marks) (n : ℕ) (ws : List Word) (s : Marks)
      → ((w : Word) (t : Marks)
          → white t all < n
          → Returns (Swept find heap_of allocation_at all (w ∷ []) t) (action w t))
      → white s all < n
      → Returns (Swept find heap_of allocation_at all ws s) (each_word action ws s)
  unfolding each_word
  each_word-Swept action n [] s h few = returns (Swept-none find heap_of allocation_at all s)
  each_word-Swept action n (w ∷ ws) s h few = Returns-bind (h w s few) (λ t f.
      Returns-mono (each_word-Swept action n ws t h (omega (arith, white-keeps s t all f.keeps)))
        (λ u g. Swept-append find heap_of allocation_at all f g))

  pub unfound : {b : Bool} {w : Word} (s : Marks) → find w ≡ none → WordMarked b w s s
  unfound {w} s e = record {
    swept = Swept-nothing w s (λ o p. not_some (sym e ∙ p.found));
    pinned = λ c o p. absurd (not_some (sym e ∙ p.found));
  }

  is_gone :
      {b : Bool} {w o : Word} (s : Marks)
      → find w ≡ some o
      → is_stale (allocation_at o).alloc_type ≡ true
      → WordMarked b w s s
  is_gone {w} {o} s e stale = record {
    swept = Swept-nothing w s never;
    pinned = λ c x p. absurd (never x p);
  }
    where
      never : (x : Word) → ¬ PointsTo find heap_of allocation_at w x
      never x p = not_both p.fresh (rw (some_injective (sym p.found ∙ e)) stale)

  IsPinned-in :
      (b : Bool) (s u : Marks) {w o : Word}
      → PointsTo find heap_of allocation_at w o
      → ((x : Word) → IsPinned (set_marks b (heap_of o) o s) x → IsPinned u x)
      → b ≡ true
      → (x : Word) → PointsTo find heap_of allocation_at w x
      → IsPinned u x
  IsPinned-in b s u {o = o} p f c x q =
      subst (IsPinned u) (some_injective (sym p.found ∙ q.found))
        (f o (rw c (pins_it (heap_of o) o s)))

  object-WordMarked :
      (action : Word → Marks → Result Marks) (n : ℕ) (b : Bool) {w o : Word} (s : Marks)
      → ((v : Word) (t : Marks)
          → white t all < n
          → Returns (Swept find heap_of allocation_at all (v ∷ []) t) (action v t))
      → Listed
      → Readable
      → white s all < suc n
      → PointsTo find heap_of allocation_at w o
      → Returns (WordMarked b w s) (
          if (s.flags_at o).gc_mark
          then ok (set_marks b (heap_of o) o s)
          else (contents o (allocation_at o) >>= λ ws.
              each_word action ws (set_marks b (heap_of o) o s)))
  object-WordMarked action n b {w} {o} s h listed readable few p =
      elim (Bool-cases (s.flags_at o).gc_mark) [
        | inl marked ↦ rw marked (
            returns (record {
              swept = Swept-again b (listed w o p.found) p marked;
              pinned = IsPinned-in b s (set_marks b (heap_of o) o s) p (λ x m. m);
            }))
        | inr new ↦
            let t = set_marks b (heap_of o) o s in
            let less : white t all < white s all =
              failing_less (λ x. (s.flags_at x).gc_mark) (λ x. (t.flags_at x).gc_mark) all o
                (set_keeps b (heap_of o) o s) (listed w o p.found) new
                (marks_it b (heap_of o) o s) in
            let (ws, c) = known (readable w o p) in
            rw (new, c)
              (Returns-mono (each_word-Swept action n ws t h (omega arith)) (λ u f. record {
                swept = Swept-object b (listed w o p.found) p c f;
                pinned = IsPinned-in b s u p f.pins;
              }))
      ]
    where
      known : {r : Result (List Word)} → Returns (λ ws. Unit {0}) r → (ws : List Word) × (r ≡ ok ws)
      known (returns u) = (_, refl)

  -- With more fuel than there are objects that are not marked, `gc_mark_root` returns, and what it leaves.
  pub mark_root-WordMarked :
      (n : ℕ) (b : Bool) (w : Word) (s : Marks)
      → Listed
      → Readable
      → white s all < n
      → Returns (WordMarked b w s) (mark_root find heap_of allocation_at maybe_contains n b w s)
  unfolding mark_root
  mark_root-WordMarked zero b w s listed readable few = absurd (omega arith)
  mark_root-WordMarked (suc n) b w s listed readable few = elim (Option-cases (find w)) [
    | inl e ↦ rw (mark_root, e) (returns (unfound s e))
    | inr (o, e) ↦
        rw (mark_root, e)
          (elim (Bool-cases (is_stale (allocation_at o).alloc_type)) [
            | inl stale ↦ rw stale (returns (is_gone s e stale))
            | inr fresh ↦ rw fresh (
                object-WordMarked
                  (λ v u. mark_root find heap_of allocation_at maybe_contains n false v u) n b s
                  (λ v t less.
                    Returns-mono (mark_root-WordMarked n false v t listed readable less)
                      (λ u m. m.swept))
                  listed readable few (record { found = e; fresh = fresh }))
          ])
  ]
