-- ===== src/Mark/Live.antt =====
-- What it means that marking was done, and what the marked objects are.
use snow.Base.{
  Bool, Bool-cases, List, Option, [], false, inl, inr, ok, some, true, ℕ, ◌++◌, ◌+◌, ◌<◌, ◌≡◌,
}
use mathlib.Core.List.{Memᴰ}
use mathlib.Core.List.Memᴰ
use snow.Mark.{Allocation, Marks, contents, is_stale}
use snow.Mark.Lists.{IsMarked, definite}
use snow.Array.{u32_mod}
use snow.Value.{Word}

abbrev pub IsPinned : Marks → Word → Type 0
IsPinned s o = (s.flags_at o).gc_indefinite ≡ true

pub not_both : {b : Bool} → b ≡ false → ¬ (b ≡ true)
not_both f m = cc

-- The counts of indefinite objects have room for all objects that are not; every indefinite object is
-- marked, and its heap counts it.
pub record Counted (heap_of : Word → ℕ) (all : List Word) (s : Marks) : Type 0 where
  pub room : (heap : ℕ) → s.num_indefinite heap + definite s all < u32_mod
  pub each : (o : Word) → IsPinned s o → IsMarked s o × (0 < s.num_indefinite (heap_of o))

module _ (find : Word → Option Word) (heap_of : Word → ℕ) (allocation_at : Word → Allocation) where
  -- The word points into an object that is not stale.
  pub record PointsTo (w o : Word) : Type 0 where
    pub found : find w ≡ some o
    pub fresh : is_stale (allocation_at o).alloc_type ≡ false

  -- The objects that words lead to, through the contents of objects.
  pub data LiveFrom (ws : List Word) : Word → Type 0 where
    live_root : {o : Word} (w : Word) → Memᴰ w ws → PointsTo w o → LiveFrom ws o
    live_inside :
        {o : Word} (p : Word) (vs : List Word) (w : Word)
        → LiveFrom ws p
        → contents p (allocation_at p) ≡ ok vs
        → Memᴰ w vs
        → PointsTo w o
        → LiveFrom ws o

  pub LiveFrom-mono :
      {ws vs : List Word} {o : Word}
      → ((w : Word) → Memᴰ w ws → Memᴰ w vs)
      → LiveFrom ws o
      → LiveFrom vs o
  LiveFrom-mono f (live_root w m p) = live_root w (f w m) p
  LiveFrom-mono f (live_inside p vs w l c m q) = live_inside p vs w (LiveFrom-mono f l) c m q

  -- What a word points to is marked.
  abbrev pub Handled : Marks → Word → Type 0
  Handled s w = (o : Word) → PointsTo w o → IsMarked s o

  module _ (all : List Word) where
    -- From the marks `s` to the marks `t`, the words `ws` were marked with all that they lead to.
    pub record Swept (ws : List Word) (s t : Marks) : Type 0 where
      pub keeps : (o : Word) → IsMarked s o → IsMarked t o
      pub pins : (o : Word) → IsPinned s o → IsPinned t o
      pub handles : (w : Word) → Memᴰ w ws → Handled t w
      pub closed :
          (o : Word)
          → (s.flags_at o).gc_mark ≡ false
          → IsMarked t o
          → (vs : List Word) → contents o (allocation_at o) ≡ ok vs
          → (w : Word) → Memᴰ w vs
          → Handled t w
      pub sound : (o : Word) → (s.flags_at o).gc_mark ≡ false → IsMarked t o → LiveFrom ws o
      pub counts : Counted heap_of all s → Counted heap_of all t

    pub Swept-none : (s : Marks) → Swept [] s s
    Swept-none s = record {
      keeps = λ o m. m;
      pins = λ o m. m;
      handles = λ w m. absurd (Memᴰ.not-nil m);
      closed = λ o f m. absurd (not_both f m);
      sound = λ o f m. absurd (not_both f m);
      counts = λ c. c;
    }

    pub Swept-append :
        {ws vs : List Word} {s t u : Marks} → Swept ws s t → Swept vs t u → Swept (ws ++ vs) s u
    Swept-append {ws} {vs} {s} {t} {u} f g = record {
      keeps = λ o m. g.keeps o (f.keeps o m);
      pins = λ o m. g.pins o (f.pins o m);
      handles = λ w m. elim (Memᴰ.append_cases ws m) [
        | inl early ↦ λ o p. g.keeps o (f.handles w early o p)
        | inr late ↦ g.handles w late
      ];
      closed = λ o e m zs c w i. elim (Bool-cases (t.flags_at o).gc_mark) [
        | inl before ↦ λ p q. g.keeps p (f.closed o e before zs c w i p q)
        | inr after ↦ g.closed o after m zs c w i
      ];
      sound = λ o e m. elim (Bool-cases (t.flags_at o).gc_mark) [
        | inl before ↦ LiveFrom-mono (λ w i. Memᴰ.append_left vs i) (f.sound o e before)
        | inr after ↦ LiveFrom-mono (λ w i. Memᴰ.append_right ws i) (g.sound o after m)
      ];
      counts = λ c. g.counts (f.counts c);
    }
