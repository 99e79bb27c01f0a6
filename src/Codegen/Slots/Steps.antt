-- ===== src/Codegen/Slots/Steps.antt =====
-- Rules for the steps that reserve and free temporaries (`codegen_reserve_tmp`, `codegen_free_tmp`), and for
-- quiet steps before others.
use snow.Base.{List, [], ap, arith, length, length-append, refl, ℕ, ◌++◌, ◌+◌, ◌∷◌, ◌≡◌}
use snow.Codegen.{Cgx, M, free_tmp, freelist, reserve_from, reserve_tmp, ◌>>=◌, ◌>>◌}
use snow.Codegen.Slots.Rules.{
  After, After-bind, After-mono, Lost, Quiet, Quiet-Loses, Same, Slots, Slots-Same, Uses, Uses-bind,
  Uses-cast, Uses-then, count, count-append,
}

reserve_from-Slots :
    (held free : List ℕ) (s : Cgx)
    → freelist s.tmp_freelist ≡ free
    → Slots held s
    → After (λ t s'. Slots (t ∷ held) s') (reserve_from free s)
unfolding reserve_from
reserve_from-Slots held [] s e h = record {
  once = λ u. ground (arith, h.once u, ap (count u) e);
  all = omega (arith, h.all, ap length e);
}
reserve_from-Slots held (t ∷ ts) s e h = record {
  once = λ u. omega (arith, h.once u, ap (count u) e);
  all = omega (arith, h.all, ap length e);
}

-- A slot that is reserved was not held.
pub reserve_then :
    {B : Type 0} {f : ℕ → M B} {before after : List ℕ} {n : ℕ}
    → ((t : ℕ) → Uses (t ∷ before) after n (f t))
    → Uses before after n (reserve_tmp >>= f)
unfolding ◌>>=◌ reserve_tmp
reserve_then {f} {before} {after} {n} q = record {
  run = λ held s h.
      After-bind (λ t s'. Slots (t ∷ (before ++ held)) s') (λ _ s'. Lost (after ++ held) n s')
        (reserve_from (freelist s.tmp_freelist) s) f
        (reserve_from-Slots (before ++ held) (freelist s.tmp_freelist) s refl h)
        λ t s' h'. (q t).run held s' h';
}

pub free_tmp-Uses :
    (t : ℕ) {before after : List ℕ} → Same before (t ∷ after) → Uses before after 0 (free_tmp t)
unfolding free_tmp
free_tmp-Uses t {before} {after} (e, l) = record {
  run = λ held s h. (
    [],
    refl,
    record {
      once =
          λ u. omega (arith, e u, count-append u before held, count-append u after held, h.once u);
      all = omega (arith, length-append before held, length-append after held, h.all);
    },
  );
}

-- A quiet step before others.
pub Uses-Quiet-then :
    {B : Type 0} {m : M (Unit {0})} {k : M B} {before after : List ℕ} {n : ℕ}
    → Quiet m
    → Uses before after n k
    → Uses before after n (m >> k)
Uses-Quiet-then {before} q p = Uses-cast (omega arith) (Uses-then (Quiet-Loses q before) p)

pub Uses-Quiet-bind :
    {A B : Type 0} {m : M A} {f : A → M B} {before after : List ℕ} {n : ℕ}
    → Quiet m
    → ((a : A) → Uses before after n (f a))
    → Uses before after n (m >>= f)
Uses-Quiet-bind {before} q p = Uses-cast (omega arith) (Uses-bind (Quiet-Loses q before) p)

-- A slot that is freed before others.
pub free_then :
    (t : ℕ) {B : Type 0} {k : M B} {before after rest : List ℕ} {n : ℕ}
    → Same before (t ∷ rest)
    → Uses rest after n k
    → Uses before after n (free_tmp t >> k)
free_then t same p = Uses-cast (omega arith) (Uses-then (free_tmp-Uses t same) p)

-- Two slots that a step keeps and that are not freed are lost.
pub lost_two :
    (a b : ℕ) (slots : List ℕ) {A : Type 0} {m : M A} {n : ℕ}
    → Uses (a ∷ b ∷ slots) (a ∷ b ∷ slots) n m
    → Uses (a ∷ b ∷ slots) slots (2 + n) m
lost_two a b slots {m} {n} p = record {
  run = λ held s h.
      After-mono (λ _ s'. Lost (a ∷ b ∷ (slots ++ held)) n s')
        (λ _ s'. Lost (slots ++ held) (2 + n) s') (m s) (p.run held s h)
        λ x s' (lost, e, h'). (
          a ∷ b ∷ lost,
          omega (arith, e),
          Slots-Same
              (
                λ u. omega (
                  arith,
                  count-append u lost (a ∷ b ∷ (slots ++ held)),
                  count-append u lost (slots ++ held),
                ),
                omega (
                  arith,
                  length-append lost (a ∷ b ∷ (slots ++ held)),
                  length-append lost (slots ++ held),
                ),
              )
              h',
        );
}
