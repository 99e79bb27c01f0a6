-- ===== src/FixedAlloc/FreeList.antt =====
-- The free list holds each freed block once, and hands the last one out first.
use snow.Base.{
  List, Returns, [], arith, assert-true, false, refl, returns, subst, sym, true, ◌==◌, ◌∷◌, ◌≡◌,
  ◌≢◌,
}
use snow.FixedAlloc.{FixedAlloc, fixed_alloc, fixed_free, write_link}
use snow.Value.{Word, null}

-- From `p` the links lead through the blocks to NULL.
abbrev pub Linked : (Word → Word) → Word → List Word → Type 0
Linked next_at p [] = p ≡ null
Linked next_at p (x ∷ xs) = (p ≡ x) × (x ≢ null) × Linked next_at (next_at x) xs

abbrev pub NotIn : Word → List Word → Type 0
NotIn p [] = Unit
NotIn p (x ∷ xs) = (p ≢ x) × NotIn p xs

abbrev pub Distinct : List Word → Type 0
Distinct [] = Unit
Distinct (x ∷ xs) = NotIn x xs × Distinct xs

-- The allocator's free blocks, none of them twice.
pub record Free (a : FixedAlloc) (free : List Word) : Type 0 where
  pub linked : Linked a.next_at a.free_element free
  pub distinct : Distinct free

-- A write to a block that is not in the list leaves the list alone.
Linked-write_link :
    (next_at : Word → Word) (b v p : Word) (xs : List Word)
    → NotIn b xs
    → Linked next_at p xs
    → Linked (write_link next_at b v) p xs
Linked-write_link next_at b v p [] out l = l
Linked-write_link next_at b v p (x ∷ xs) (ne, out) (e, nn, l) = (
  e,
  nn,
  subst (λ q. Linked (write_link next_at b v) q xs) (ground arith)
      (Linked-write_link next_at b v (next_at x) xs out l),
)

-- `fixed_free` puts a block that is not free yet in front, and NULL changes nothing.
pub fixed_free-cons :
    {a : FixedAlloc} (free : List Word) (p : Word)
    → Free a free
    → a.lock_initialized ≡ true
    → NotIn p free
    → p ≢ null
    → Returns (λ b. Free b (p ∷ free) × (b.lock_initialized ≡ true)) (fixed_free a p)
unfolding fixed_free
fixed_free-cons {a} free p f init out nn =
    let real : (p == null) ≡ false = ground (arith, nn) in
    rw (real, assert-true init)
      (returns (
        record {
          linked = (
            refl,
            nn,
            subst (λ q. Linked (write_link a.next_at p a.free_element) q free) (ground arith)
                (Linked-write_link a.next_at p a.free_element a.free_element free out f.linked),
          );
          distinct = (out, f.distinct);
        },
        init,
      ))

-- What `fixed_alloc` hands out: new memory if no block is free, else the block that was freed last.
abbrev pub Handed : Word → List Word → Word × FixedAlloc → Type 0
Handed fresh [] (p, b) = (p ≡ fresh) × Free b []
Handed fresh (x ∷ xs) (p, b) = (p ≡ x) × (x ≢ null) × NotIn x xs × Free b xs

-- `fixed_alloc` takes the block that was freed last out of the free list, and asks for memory only if
-- none is free; afterwards the lock counts as initialised.
pub fixed_alloc-Handed :
    {a : FixedAlloc} (free : List Word) (fresh : Word)
    → Free a free
    → Handed fresh free (fixed_alloc a fresh) × ((fixed_alloc a fresh).1.lock_initialized ≡ true)
unfolding fixed_alloc
fixed_alloc-Handed {a} [] fresh f =
    let no_block : (a.free_element == null) ≡ true = ground (arith, f.linked) in
    rw no_block ((refl, record { linked = f.linked; distinct = tt }), refl)
fixed_alloc-Handed {a} (x ∷ xs) fresh f =
    let (e, nn, l) = f.linked in
    let (out, d) = f.distinct in
    let block : (a.free_element == null) ≡ false = ground (arith, e, nn) in
    rw block (
      (
        e,
        nn,
        out,
        record { linked = subst (λ q. Linked a.next_at (a.next_at q) xs) (sym e) l; distinct = d },
      ),
      refl,
    )
