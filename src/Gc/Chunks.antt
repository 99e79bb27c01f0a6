-- ===== src/Gc/Chunks.antt =====
-- The bounds that snow/gc.c keeps around the chunks of its heaps, and the memory they take.
use snow.Base.{
  Bool-cases, List, [], ap, arith, if◌then◌else◌, inl, inr, ltb, refl, true, ℕ, ◌+◌, ◌<◌, ◌==◌,
  ◌||◌, ◌∷◌, ◌≡◌, ◌≢◌, ◌≤◌, ◌⊎◌,
}
use snow.Gc.{ChunkInfo, gc_alloc_chunk, gc_free_chunk, no_chunks, uintx_mod}
use snow.Value.{Word, null}

-- A chunk: its address and its size.
abbrev pub Chunk : Type 0
Chunk = Word × ℕ

abbrev pub sum_sizes : List Chunk → ℕ
sum_sizes [] = 0
sum_sizes ((p, s) ∷ cs) = s + sum_sizes cs

abbrev pub InBounds : Word → Word → List Chunk → Type 0
InBounds low high [] = Unit
InBounds low high ((p, s) ∷ cs) = (low ≤ p) × (p + s ≤ high) × InBounds low high cs

-- The chunks lie in the bounds, and the total counts them.
pub record Covers (c : ChunkInfo) (cs : List Chunk) : Type 0 where
  pub bounds : InBounds c.lower_bound c.upper_bound cs
  pub unset : c.lower_bound ≡ null → cs ≡ []
  pub total_eq : c.total_mem_usage ≡ sum_sizes cs

-- A chunk overlaps none of the others, which are not empty.
abbrev pub Disjoint : Chunk → List Chunk → Type 0
Disjoint (p, s) [] = Unit
Disjoint (p, s) ((q, t) ∷ cs) = (0 < t) × ((q + t ≤ p) ⊎ (p + s ≤ q)) × Disjoint (p, s) cs

InBounds-wider :
    (low high low' high' : Word) (cs : List Chunk)
    → low' ≤ low
    → high ≤ high'
    → InBounds low high cs
    → InBounds low' high' cs
InBounds-wider low high low' high' [] l h b = tt
InBounds-wider low high low' high' ((p, s) ∷ cs) l h (a, z, b) =
    (omega arith, omega arith, InBounds-wider low high low' high' cs l h b)

pub cons-not_nil : (c : Chunk) (cs : List Chunk) → (c ∷ cs) ≢ []
cons-not_nil c cs e = ground (arith, e)

InBounds-freed :
    (low high p : Word) (s : ℕ) (cs : List Chunk)
    → Disjoint (p, s) cs
    → InBounds low high cs
    → low ≤ p
    → p + s ≤ high
    → InBounds (if low == p then p + s else low) (if p + s == high then p else high) cs
InBounds-freed low high p s [] d b at_low at_high = tt
InBounds-freed low high p s ((q, t) ∷ cs) (some_size, apart, d) (a, z, b) at_low at_high = (
  ground (arith, some_size, apart, a, z),
  ground (arith, some_size, apart, a, z),
  InBounds-freed low high p s cs d b at_low at_high,
)

no_chunks-Covers : Covers no_chunks []
no_chunks-Covers = record { bounds = tt; unset = λ e. refl; total_eq = refl }

-- If all chunks lie in the bounds and the total counts them, then the same holds with a new chunk that
-- is not NULL, as long as the total fits 64 bits.
pub gc_alloc_chunk-Covers :
    (c : ChunkInfo) (cs : List Chunk) (ptr : Word) (size : ℕ)
    → Covers c cs
    → ptr ≢ null
    → size + sum_sizes cs < uintx_mod
    → Covers (gc_alloc_chunk c ptr size) ((ptr, size) ∷ cs)
unfolding gc_alloc_chunk
gc_alloc_chunk-Covers c cs ptr size v real small = elim (Bool-cases (c.lower_bound == null)) [
  | inl e ↦
      let none_yet = v.unset (ground (arith, e)) in
      let lower : (ltb ptr c.lower_bound || c.lower_bound == null) ≡ true = ground (arith, e) in
      rw (none_yet, lower)
        (record {
          bounds = (omega arith, ground arith, tt);
          unset = λ z. absurd (real z);
          total_eq = omega (arith, v.total_eq, ap sum_sizes none_yet, small);
        })
  | inr e ↦ record {
    bounds = (
      ground arith,
      ground arith,
      InBounds-wider c.lower_bound c.upper_bound _ _ cs (ground (arith, e)) (ground arith) v.bounds,
    );
    unset = λ z. ground (arith, z, e, real);
    total_eq = omega (arith, v.total_eq, small);
  }
]

-- If all chunks lie in the bounds and the total counts them, then freeing a chunk that overlaps none
-- of the others, which are not empty, leaves the others in the bounds, and the total counts them.
pub gc_free_chunk-Covers :
    (c : ChunkInfo) (cs : List Chunk) (ptr : Word) (size : ℕ)
    → Covers c ((ptr, size) ∷ cs)
    → Disjoint (ptr, size) cs
    → sum_sizes cs + size < uintx_mod
    → Covers (gc_free_chunk c ptr size) cs
unfolding gc_free_chunk
gc_free_chunk-Covers c cs ptr size v apart small =
    let (at_low, at_high, rest) = v.bounds in
    record {
      bounds = InBounds-freed c.lower_bound c.upper_bound ptr size cs apart rest at_low at_high;
      unset = λ z. absurd (cons-not_nil (ptr, size) cs (v.unset (ground (arith, z))));
      total_eq = omega (arith, v.total_eq, small);
    }
