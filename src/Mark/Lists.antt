-- ===== src/Mark/Lists.antt =====
-- How many objects of a list are not marked yet, or not indefinite yet.
use snow.Base.{
  Bool, List, [], ap, arith, false, length, refl, sym, true, ℕ, ◌+◌, ◌<◌, ◌∙◌, ◌∷◌, ◌≡◌, ◌≤◌,
}
use mathlib.Core.List.{Memᴰ}
use snow.Mark.{Marks}
use snow.Value.{Word}

abbrev pub one_if_false : Bool → ℕ
one_if_false true = 0
one_if_false false = 1

-- How many words of a list fail a test.
abbrev pub failing : (Word → Bool) → List Word → ℕ
failing test [] = 0
failing test (o ∷ os) = one_if_false (test o) + failing test os

abbrev pub white : Marks → List Word → ℕ
white s os = failing (λ o. (s.flags_at o).gc_mark) os

abbrev pub definite : Marks → List Word → ℕ
definite s os = failing (λ o. (s.flags_at o).gc_indefinite) os

one_less : (a b : Bool) → (a ≡ true → b ≡ true) → one_if_false b ≤ one_if_false a
one_less true b h = rw (h refl) (omega arith)
one_less false true h = omega arith
one_less false false h = omega arith

-- When more words pass, fewer fail, and strictly fewer if one of them did before.
pub failing_mono :
    (f g : Word → Bool) (os : List Word)
    → ((o : Word) → f o ≡ true → g o ≡ true)
    → failing g os ≤ failing f os
failing_mono f g [] h = omega arith
failing_mono f g (o ∷ os) h = omega (arith, one_less (f o) (g o) (h o), failing_mono f g os h)

pub failing_less :
    (f g : Word → Bool) (os : List Word) (o : Word)
    → ((o : Word) → f o ≡ true → g o ≡ true)
    → Memᴰ o os
    → f o ≡ false
    → g o ≡ true
    → failing g os < failing f os
failing_less f g [] o h i w m = elim i [ ]
failing_less f g (p ∷ os) o h (Memᴰ.head e) w m =
    let w' : f p ≡ false = ap f (sym e) ∙ w in
    let m' : g p ≡ true = ap g (sym e) ∙ m in rw (w', m') (omega (arith, failing_mono f g os h))
failing_less f g (p ∷ os) o h (Memᴰ.tail i) w m =
    omega (arith, one_less (f p) (g p) (h p), failing_less f g os o h i w m)

pub failing_at_most : (f : Word → Bool) (os : List Word) → failing f os ≤ length os
failing_at_most f [] = omega arith
failing_at_most f (o ∷ os) = omega (arith, one (f o), failing_at_most f os)
  where
    one : (b : Bool) → one_if_false b ≤ 1
    one true = omega arith
    one false = omega arith

abbrev pub IsMarked : Marks → Word → Type 0
IsMarked s o = (s.flags_at o).gc_mark ≡ true

pub white-keeps :
    (s t : Marks) (os : List Word)
    → ((o : Word) → IsMarked s o → IsMarked t o)
    → white t os ≤ white s os
white-keeps s t os h = failing_mono (λ o. (s.flags_at o).gc_mark) (λ o. (t.flags_at o).gc_mark) os h
