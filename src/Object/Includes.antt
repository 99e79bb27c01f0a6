-- ===== src/Object/Includes.antt =====
-- The modules that objects include: the search of snow/object.c ends, and includes never get circular.
use snow.Base.{
  ==_iff, Bool, Bool-cases, List, Result, [], ap, append_assoc, arith, assert-true, false, get_or,
  if◌then◌else◌, inl, inr, length, length-append, ok, pos, refl, subst, suc, sym, true, zero, ℕ,
  ◌++◌, ◌+◌, ◌<◌, ◌==◌, ◌>>=◌, ◌∙◌, ◌∷◌, ◌≡◌, ◌≢◌, ◌≤◌, ◌⊎◌,
}
use snow.Array.{Array, array_get}
use snow.Array.Access.{array_get-element}
use snow.Array.Holds.{Holds}
use snow.Object.{Objects, included_in, is_included, is_normal_object}
use snow.Value.{Word, null}

abbrev pub Member : Word → List Word → Type 0
Member x [] = ⊥
Member x (y ∷ ys) = (x ≡ y) ⊎ Member x ys

-- From an object to another over modules of modules.
pub data Leads (mods : Word → List Word) (goal : Word) : Word → Type 0 where
  at_goal : {x : Word} → x ≡ goal → Leads mods goal x
  through_module : {x : Word} (m : Word) → Member m (mods x) → Leads mods goal m → Leads mods goal x

-- The modules that the arrays of the objects hold, all of them normal objects; and a rank that falls
-- from an object to its modules, which no circle of includes could have.
pub record Acyclic (s : Objects) (mods : Word → List Word) (rank : Word → ℕ) : Type 0 where
  pub held : (x : Word) → Holds (s.object_at x).included_modules (mods x)
  pub normal : (x m : Word) → Member m (mods x) → is_normal_object s.type_at m ≡ true
  pub ranked : (x m : Word) → Member m (mods x) → rank m < rank x

-- A test that returns, and says whether the proposition holds.
pub data Decides (P : Type 0) : Result Bool → Type 0 where
  holds : P → Decides P (ok true)
  fails : (P → ⊥) → Decides P (ok false)

Decides-iff : {P Q : Type 0} {r : Result Bool} → (P → Q) → (Q → P) → Decides P r → Decides Q r
Decides-iff f g (holds p) = holds (f p)
Decides-iff f g (fails np) = fails (λ q. np (g q))

abbrev Some : (Word → Type 0) → List Word → Type 0
Some R xs = (m : Word) × Member m xs × R m

get_or-middle :
    (done : List Word) (x : Word) (xs : List Word) → get_or (done ++ x ∷ xs) (length done) null ≡ x
get_or-middle [] x xs = refl
get_or-middle (y ∷ done) x xs = get_or-middle done x xs

first_or_later :
    (R : Word → Type 0) (x : Word) (xs : List Word) {r rest : Result Bool}
    → Decides (R x) r
    → Decides (Some R xs) rest
    → Decides (Some R (x ∷ xs)) (r >>= λ hit. if hit then ok true else rest)
first_or_later R x xs (holds p) d = holds (x, inl refl, p)
first_or_later R x xs (fails np) (holds (m, i, r)) = holds (m, inr i, r)
first_or_later R x xs (fails np) (fails nq) =
    fails (λ (m, i, r). elim i [ inl e ↦ np (subst R e r) | inr j ↦ nq (m, j, r) ])

included_in-Decides :
    (R : Word → Type 0) (again : Word → Result Bool) (is_normal : Word → Bool) (a : Array)
    (all done xs : List Word)
    → Holds a all
    → all ≡ done ++ xs
    → ((m : Word) → Member m xs → (is_normal m ≡ true) × Decides (R m) (again m))
    → Decides (Some R xs) (included_in again is_normal a (length done) (length xs))
unfolding included_in
included_in-Decides R again is_normal a all done [] h e each = fails (λ (m, i, r). i)
included_in-Decides R again is_normal a all done (x ∷ xs) h e each =
    let (normal, decided) = each x (inl refl) in
    let read : array_get a (pos (length done)) ≡ ok x =
      array_get-element (pos (length done)) h
      ∙ ap (λ t. ok (get_or t (length done) null)) e
      ∙ ap ok (get_or-middle done x xs) in
    let next : length done + 1 ≡ length (done ++ x ∷ []) =
      omega (arith, length-append done (x ∷ [])) in
    let later =
      included_in-Decides R again is_normal a all (done ++ x ∷ []) xs h
        (e ∙ sym (append_assoc done (x ∷ []) xs)) (λ m i. each m (inr i)) in
    rw (read, assert-true normal, next) (first_or_later R x xs decided later)

Leads-cases :
    {mods : Word → List Word} {goal x : Word}
    → Leads mods goal x
    → (x ≡ goal) ⊎ Some (Leads mods goal) (mods x)
Leads-cases (at_goal e) = inl e
Leads-cases (through_module m i l) = inr (m, i, l)

one_level :
    (again : Word → Result Bool) (s : Objects) (mods : Word → List Word) (rank : Word → ℕ)
    (object included : Word)
    → Acyclic s mods rank
    → ((m : Word) → Member m (mods object) → Decides (Leads mods included m) (again m))
    → Decides (Leads mods included object) (
        if object == included
        then ok true
        else included_in again
            (is_normal_object s.type_at)
            (s.object_at object).included_modules
            0
            (s.object_at object).included_modules.size)
one_level again s mods rank object included a deeper = elim (Bool-cases (object == included)) [
  | inl e ↦ rw e (holds (at_goal ((==_iff object included).0 e)))
  | inr e ↦
      let ne : object ≢ included = λ z. ground (arith, e, z) in
      let h = a.held object in
      let modules : Array = (s.object_at object).included_modules in
      let searched : Decides (Some (Leads mods included) (mods object))
          (included_in again (is_normal_object s.type_at) modules 0 modules.size) =
        subst
          (λ k.
            Decides (Some (Leads mods included) (mods object))
              (included_in again (is_normal_object s.type_at) modules 0 k))
          (sym h.size_eq)
          (included_in-Decides (Leads mods included) again (is_normal_object s.type_at) modules
            (mods object) [] (mods object) h refl (λ m i. (a.normal object m i, deeper m i))) in
      rw e (
        Decides-iff (λ (m, i, l). through_module m i l)
          (λ l. elim (Leads-cases l) [ inl z ↦ absurd (ne z) | inr w ↦ w ]) searched)
]

-- Without circles the search for an included module ends, with fuel for the object's rank, and says
-- whether the module is the object itself, or a module of its modules at any depth.
pub is_included-Decides :
    (n : ℕ) (s : Objects) (mods : Word → List Word) (rank : Word → ℕ) (object included : Word)
    → Acyclic s mods rank
    → rank object ≤ n
    → Decides (Leads mods included object) (is_included (suc n) s object included)
unfolding is_included
is_included-Decides zero s mods rank object included a le =
    one_level _ s mods rank object included a
      (λ m i. absurd (let lower = a.ranked object m i in omega (arith, lower)))
is_included-Decides (suc n) s mods rank object included a le =
    one_level _ s mods rank object included a (λ m i.
      is_included-Decides n s mods rank m included a
        (let lower = a.ranked object m i in omega (arith, lower)))
