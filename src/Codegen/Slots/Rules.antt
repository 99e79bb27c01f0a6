-- ===== src/Codegen/Slots/Rules.antt =====
-- What a step of the generator does to the temporaries, and rules for steps in order.
use snow.Base.{
  List, Result, [], ap, arith, fault, if◌then◌else◌, length, length-append, ltb, ok, refl, subst,
  thrown, trap, ℕ, ◌++◌, ◌+◌, ◌==◌, ◌∙◌, ◌∷◌, ◌≡◌,
}
use snow.Codegen.{Cgx, M, continue_with, freelist, ◌>>=◌, ◌>>◌}

abbrev pub count : ℕ → List ℕ → ℕ
count u [] = 0
count u (x ∷ xs) = (if x == u then 1 else 0) + count u xs

pub count-append : (u : ℕ) (xs ys : List ℕ) → count u (xs ++ ys) ≡ count u xs + count u ys
count-append u [] ys = omega arith
count-append u (x ∷ xs) ys = omega (arith, count-append u xs ys)

-- The slots of the frame: each is once among those that are held and those that are free.
pub record Slots (held : List ℕ) (s : Cgx) : Type 0 where
  pub once :
      (u : ℕ)
      → count u held + count u (freelist s.tmp_freelist)
        ≡ (if ltb u s.num_temporaries then 1 else 0)
  pub all : length held + length (freelist s.tmp_freelist) ≡ s.num_temporaries

-- The same slots in another order.
abbrev pub Same : List ℕ → List ℕ → Type 0
Same xs ys = ((u : ℕ) → count u xs ≡ count u ys) × (length xs ≡ length ys)

pub Slots-Same : {xs ys : List ℕ} {s : Cgx} → Same xs ys → Slots xs s → Slots ys s
Slots-Same (e, l) h = record {
  once = λ u. omega (arith, e u, h.once u);
  all = omega (arith, h.all);
}

-- What holds of the value and the state of a step that returns.
abbrev pub After : {A : Type 0} → (A → Cgx → Type 0) → Result (A × Cgx) → Type 0
After P (ok (a, s)) = P a s
After P trap = Unit
After P fault = Unit
After P thrown = Unit

pub After-bind :
    {A B : Type 0} (P : A → Cgx → Type 0) (Q : B → Cgx → Type 0) (r : Result (A × Cgx))
    (f : A → M B)
    → After P r
    → ((a : A) (s : Cgx) → P a s → After Q (f a s))
    → After Q (continue_with r f)
unfolding continue_with
After-bind P Q (ok (a, s)) f h k = k a s h
After-bind P Q trap f h k = tt
After-bind P Q fault f h k = tt
After-bind P Q thrown f h k = tt

pub After-mono :
    {A : Type 0} (P Q : A → Cgx → Type 0) (r : Result (A × Cgx))
    → After P r
    → ((a : A) (s : Cgx) → P a s → Q a s)
    → After Q r
After-mono P Q (ok (a, s)) h k = k a s h
After-mono P Q trap h k = tt
After-mono P Q fault h k = tt
After-mono P Q thrown h k = tt

-- A step that gets the slots `before` and leaves `after` and `n` more that are never freed.
abbrev pub Lost : List ℕ → ℕ → Cgx → Type 0
Lost slots n s = (lost : List ℕ) × (length lost ≡ n) × Slots (lost ++ slots) s

pub record Uses {A : Type 0} (before after : List ℕ) (n : ℕ) (m : M A) : Type 0 where
  pub run :
      (held : List ℕ) (s : Cgx)
      → Slots (before ++ held) s
      → After (λ _ s'. Lost (after ++ held) n s') (m s)

-- A step that keeps what it gets and loses `n` slots.
abbrev pub Loses : {A : Type 0} → ℕ → M A → Type 0
Loses n m = (slots : List ℕ) → Uses slots slots n m

-- A step that leaves the temporaries alone.
abbrev pub SameSlots : Cgx → Cgx → Type 0
SameSlots s s' = (s'.num_temporaries ≡ s.num_temporaries) × (s'.tmp_freelist ≡ s.tmp_freelist)

pub record Quiet {A : Type 0} (m : M A) : Type 0 where
  pub keeps : (s : Cgx) → After (λ _ s'. SameSlots s s') (m s)

pub Quiet-bind :
    {A B : Type 0} {m : M A} {f : A → M B} → Quiet m → ((a : A) → Quiet (f a)) → Quiet (m >>= f)
unfolding ◌>>=◌
Quiet-bind {m} {f} q r = record {
  keeps = λ s.
      After-bind (λ _ s'. SameSlots s s') (λ _ s'. SameSlots s s') (m s) f (q.keeps s)
        λ a s₁ (n₁, l₁).
          After-mono (λ _ s'. SameSlots s₁ s') (λ _ s'. SameSlots s s') (f a s₁) ((r a).keeps s₁)
            λ b s₂ (n₂, l₂). (n₂ ∙ n₁, l₂ ∙ l₁);
}

pub Quiet-then : {B : Type 0} {m : M (Unit {0})} {k : M B} → Quiet m → Quiet k → Quiet (m >> k)
unfolding ◌>>◌
Quiet-then {m} {k} q r = Quiet-bind {m = m} {f = λ _. k} q (λ _. r)

Slots-step :
    {held : List ℕ} {s s' : Cgx}
    → s'.num_temporaries ≡ s.num_temporaries
    → s'.tmp_freelist ≡ s.tmp_freelist
    → Slots held s
    → Slots held s'
Slots-step {held} {s} {s'} n l h =
    let f : freelist s'.tmp_freelist ≡ freelist s.tmp_freelist = ap freelist l in
    record { once = λ u. rw (f, n) (h.once u); all = rw (f, n) h.all }

pub Quiet-Loses : {A : Type 0} {m : M A} → Quiet m → Loses 0 m
Quiet-Loses {m} q slots = record {
  run = λ held s h.
      After-mono (λ _ s'. SameSlots s s') (λ _ s'. Lost (slots ++ held) 0 s') (m s) (q.keeps s)
        λ _ s' (n, l). ([], refl, Slots-step n l h);
}

pub Uses-cast :
    {A : Type 0} {m : M A} {before after : List ℕ} {n k : ℕ}
    → n ≡ k
    → Uses before after n m
    → Uses before after k m
Uses-cast {m} {before} {after} e h = subst (λ (l : ℕ). Uses before after l m) e h

-- First one step, then the other: the losses add up.
pub Uses-bind :
    {A B : Type 0} {m : M A} {f : A → M B} {before between after : List ℕ} {n k : ℕ}
    → Uses before between n m
    → ((a : A) → Uses between after k (f a))
    → Uses before after (n + k) (m >>= f)
unfolding ◌>>=◌
Uses-bind {m} {f} {between} {after} {n} {k} p q = record {
  run = λ held s h.
      After-bind (λ _ s'. Lost (between ++ held) n s') (λ _ s'. Lost (after ++ held) (n + k) s')
        (m s) f (p.run held s h)
        λ a s₁ (lost₁, e₁, h₁).
          After-mono (λ _ s'. Lost (after ++ (lost₁ ++ held)) k s')
            (λ _ s'. Lost (after ++ held) (n + k) s') (f a s₁)
            ((q a).run (lost₁ ++ held) s₁ (
              Slots-Same
                (
                  λ u. omega (
                    arith,
                    count-append u lost₁ (between ++ held),
                    count-append u between held,
                    count-append u between (lost₁ ++ held),
                    count-append u lost₁ held,
                  ),
                  omega (
                    arith,
                    length-append lost₁ (between ++ held),
                    length-append between held,
                    length-append between (lost₁ ++ held),
                    length-append lost₁ held,
                  ),
                )
                h₁))
            λ b s₂ (lost₂, e₂, h₂). (
              lost₁ ++ lost₂,
              omega (arith, length-append lost₁ lost₂),
              Slots-Same
                  (
                    λ u. omega (
                      arith,
                      count-append u lost₂ (after ++ (lost₁ ++ held)),
                      count-append u after (lost₁ ++ held),
                      count-append u lost₁ held,
                      count-append u (lost₁ ++ lost₂) (after ++ held),
                      count-append u lost₁ lost₂,
                      count-append u after held,
                    ),
                    omega (
                      arith,
                      length-append lost₂ (after ++ (lost₁ ++ held)),
                      length-append after (lost₁ ++ held),
                      length-append lost₁ held,
                      length-append (lost₁ ++ lost₂) (after ++ held),
                      length-append lost₁ lost₂,
                      length-append after held,
                    ),
                  )
                  h₂,
            );
}

pub Uses-then :
    {B : Type 0} {m : M (Unit {0})} {k : M B} {before between after : List ℕ} {n l : ℕ}
    → Uses before between n m
    → Uses between after l k
    → Uses before after (n + l) (m >> k)
unfolding ◌>>◌
Uses-then {m} {k} p q = Uses-bind {m = m} {f = λ _. k} p (λ _. q)
