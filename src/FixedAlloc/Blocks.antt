-- ===== src/FixedAlloc/Blocks.antt =====
-- The allocator of snow/fixed-alloc.c with callers that take blocks and give back blocks they hold.
use snow.Base.{
  List, Returns, Returns-mono, Returns-ok, [], arith, inl, inr, ok, refl, subst, sym, true, ◌++◌,
  ◌∙◌, ◌∷◌, ◌≡◌, ◌≢◌, ◌⊎◌,
}
use snow.FixedAlloc.{FixedAlloc, fixed_alloc, fixed_allocator, fixed_free}
use snow.FixedAlloc.FreeList.{Distinct, Free, NotIn, fixed_alloc-Handed, fixed_free-cons}
use snow.Value.{Word, null}

-- The allocator with the blocks that its callers hold.
pub record Heap : Type 0 where
  pub allocator : FixedAlloc
  pub live : List Word

-- No block of the first list is in the second.
abbrev Apart : List Word → List Word → Type 0
Apart [] free = Unit
Apart (x ∷ xs) free = NotIn x free × Apart xs free

-- The free blocks are linked, the live ones are real, and no block is in both or twice in one.
pub record Sound (h : Heap) (free : List Word) : Type 0 where
  pub free_list : Free h.allocator free
  pub real : NotIn null h.live
  pub once : Distinct h.live
  pub apart : Apart h.live free
  pub locked : (h.live ≡ []) ⊎ (h.allocator.lock_initialized ≡ true)

-- A caller takes a block, where `snow_malloc` gives memory that is not known yet, or gives back one of its
-- own. The list is the free blocks before the step.
pub data Step : Heap → List Word → Heap → List Word → Type 0 where
  reuses :
      (a : FixedAlloc) (live : List Word) (x : Word) (free : List Word) (fresh : Word)
      → Step
          (record { allocator = a; live = live })
          (x ∷ free)
          (record { allocator = (fixed_alloc a fresh).1; live = (fixed_alloc a fresh).0 ∷ live })
          free
  extends :
      (a : FixedAlloc) (live : List Word) (fresh : Word)
      → fresh ≢ null
      → NotIn fresh live
      → Step
          (record { allocator = a; live = live })
          []
          (record { allocator = (fixed_alloc a fresh).1; live = (fixed_alloc a fresh).0 ∷ live })
          []
  gives :
      (a : FixedAlloc) (p : Word) (b : FixedAlloc) (front back free : List Word)
      → fixed_free a p ≡ ok b
      → Step
          (record { allocator = a; live = front ++ p ∷ back })
          free
          (record { allocator = b; live = front ++ back })
          (p ∷ free)

-- What the steps lead to from the initialiser.
pub data Reach : Heap → List Word → Type 0 where
  starts : Reach (record { allocator = fixed_allocator; live = [] }) []
  steps : (g h : Heap) (fs free : List Word) → Reach g fs → Step g fs h free → Reach h free

NotIn-middle :
    (q p : Word) (front back : List Word)
    → NotIn q (front ++ p ∷ back)
    → NotIn q (front ++ back) × (q ≢ p)
NotIn-middle q p [] back (ne, out) = (out, ne)
NotIn-middle q p (x ∷ front) back (ne, out) =
    let (rest, apart) = NotIn-middle q p front back out in ((ne, rest), apart)

Distinct-middle :
    (p : Word) (front back : List Word)
    → Distinct (front ++ p ∷ back)
    → Distinct (front ++ back) × NotIn p (front ++ back)
Distinct-middle p [] back (out, d) = (d, out)
Distinct-middle p (x ∷ front) back (out, d) =
    let (rest, apart) = Distinct-middle p front back d in
    let (here, ne) = NotIn-middle x p front back out in ((here, rest), ((λ e. ne (sym e)), apart))

Apart-middle :
    (p : Word) (front back free : List Word)
    → Apart (front ++ p ∷ back) free
    → Apart (front ++ back) free × NotIn p free
Apart-middle p [] back free (out, a) = (a, out)
Apart-middle p (x ∷ front) back free (out, a) =
    let (rest, apart) = Apart-middle p front back free a in ((out, rest), apart)

Apart-cons :
    (p : Word) (live free : List Word) → NotIn p live → Apart live free → Apart live (p ∷ free)
Apart-cons p [] free out a = tt
Apart-cons p (x ∷ live) free (ne, out) (here, a) =
    (((λ e. ne (sym e)), here), Apart-cons p live free out a)

Apart-uncons :
    (p : Word) (live free : List Word) → Apart live (p ∷ free) → Apart live free × NotIn p live
Apart-uncons p [] free a = (tt, tt)
Apart-uncons p (x ∷ live) free ((ne, here), a) =
    let (rest, out) = Apart-uncons p live free a in ((here, rest), ((λ e. ne (sym e)), out))

Apart-nil : (live : List Word) → Apart live []
Apart-nil [] = tt
Apart-nil (x ∷ live) = (tt, Apart-nil live)

fixed_free-Free :
    (a b : FixedAlloc) (free : List Word) (p : Word)
    → Free a free
    → a.lock_initialized ≡ true
    → NotIn p free
    → p ≢ null
    → fixed_free a p ≡ ok b
    → Free b (p ∷ free) × (b.lock_initialized ≡ true)
fixed_free-Free a b free p f locked out real e = Returns-ok (
    subst (λ r. Returns (λ c. Free c (p ∷ free) × (c.lock_initialized ≡ true)) r) e
      (fixed_free-cons free p f locked out real))

is_locked :
    (a : FixedAlloc) (p : Word) (front back : List Word)
    → (front ++ p ∷ back ≡ []) ⊎ (a.lock_initialized ≡ true)
    → a.lock_initialized ≡ true
is_locked a p [] back (inl e) = ground (arith, e)
is_locked a p (x ∷ front) back (inl e) = ground (arith, e)
is_locked a p front back (inr e) = e

Step-Sound : {g h : Heap} {fs free : List Word} → Sound g fs → Step g fs h free → Sound h free
Step-Sound s (reuses a live x free fresh) =
    let ((e, nn, out, f), l) = fixed_alloc-Handed (x ∷ free) fresh s.free_list in
    let (apart, dead) = Apart-uncons x live free s.apart in
    record {
      free_list = f;
      real = ((λ z. nn (sym (z ∙ e))), s.real);
      once = (subst (λ q. NotIn q live) (sym e) dead, s.once);
      apart = (subst (λ q. NotIn q free) (sym e) out, apart);
      locked = inr l;
    }
Step-Sound s (extends a live fresh nn out) =
    let ((e, f), l) = fixed_alloc-Handed [] fresh s.free_list in
    record {
      free_list = f;
      real = ((λ z. nn (sym (z ∙ e))), s.real);
      once = (subst (λ q. NotIn q live) (sym e) out, s.once);
      apart = Apart-nil ((fixed_alloc a fresh).0 ∷ live);
      locked = inr l;
    }
Step-Sound s (gives a p b front back free e) =
    let (once, alone) = Distinct-middle p front back s.once in
    let (real, nn) = NotIn-middle null p front back s.real in
    let (apart, out) = Apart-middle p front back free s.apart in
    let (f, l) =
      fixed_free-Free a b free p s.free_list (is_locked a p front back s.locked) out
        (λ z. nn (sym z)) e in
    record {
      free_list = f;
      real = real;
      once = once;
      apart = Apart-cons p (front ++ back) free alone apart;
      locked = inr l;
    }

-- Whatever blocks callers take and give back, starting from the initialiser, the live blocks are distinct
-- and not NULL, the free list holds each free block once, and no block is both live and free.
pub Reach-Sound : {h : Heap} {free : List Word} → Reach h free → Sound h free
Reach-Sound starts = record {
  free_list = record { linked = refl; distinct = tt };
  real = tt;
  once = tt;
  apart = tt;
  locked = inl refl;
}
Reach-Sound (steps g h fs free r s) = Step-Sound (Reach-Sound r) s

-- In every reachable state, giving back any live block succeeds, and the next allocation returns it.
pub fixed_alloc-fixed_free :
    {a : FixedAlloc} (front : List Word) (p : Word) (back free : List Word) (fresh : Word)
    → Reach (record { allocator = a; live = front ++ p ∷ back }) free
    → Returns (λ b. (fixed_alloc b fresh).0 ≡ p) (fixed_free a p)
fixed_alloc-fixed_free {a} front p back free fresh r =
    let s = Reach-Sound r in
    let (real, nn) = NotIn-middle null p front back s.real in
    let (apart, out) = Apart-middle p front back free s.apart in
    Returns-mono
      (fixed_free-cons free p s.free_list (is_locked a p front back s.locked) out (λ z. nn (sym z)))
      (λ b (f, l). (fixed_alloc-Handed (p ∷ free) fresh f).0.0)
