-- ===== src/Object/Include.antt =====
-- Including a module, as snow/object.c does it, keeps the modules free of circles.
use snow.Base.{
  ==_iff, Bool, Bool-cases, List, Result, Returns, [], arith, false, fault, if◌then◌else◌, inl, inr,
  length, ok, pos, refl, returns, subst, suc, sym, thrown, trap, true, ℕ, ℤ, ◌++◌, ◌+◌, ◌<◌, ◌==◌,
  ◌>>=◌, ◌↔◌, ◌∷◌, ◌≡◌, ◌≢◌, ◌≤◌, ◌⊎◌,
}
use snow.Object.Includes.{
  Acyclic, Decides, Leads, Member, at_goal, fails, holds, is_included-Decides, through_module,
}
use snow.Array.{Array, array_push, is_negative, u32_mod}
use snow.Array.Holds.{Holds}
use snow.Array.Search.{Located, absent, array_find-position, located, position-Located, slot}
use snow.Object.{Objects, is_included, is_normal_object, object_include, with_modules}
use snow.Value.{Word}
use snow.Array.Growth.{Stored, array_push-append}

abbrev as_bool : Result Bool → Bool
as_bool (ok b) = b
as_bool trap = false
as_bool fault = false
as_bool thrown = false

as_bool_iff : {P : Type 0} {r : Result Bool} → Decides P r → (as_bool r ≡ true) ↔ P
as_bool_iff (holds p) = (λ e. p, λ q. refl)
as_bool_iff (fails np) = (λ e. ground (arith, e), λ q. absurd (np q))

-- The modules with one more for an object.
abbrev pub with_module : (Word → List Word) → Word → Word → Word → List Word
with_module mods obj included x = if x == obj then mods obj ++ included ∷ [] else mods x

-- The objects from which the search reaches `obj` rise above the included module.
abbrev pub raised : Objects → (Word → ℕ) → Word → Word → Word → ℕ
raised s rank obj included x =
    rank x + (if as_bool (is_included (suc (rank x)) s x obj) then suc (rank included) else 0)

-- What `snow_object_include` does: nothing if the object has the module, an exception if the module
-- leads to the object, else one more module, and still no circle. The last two need that the object does
-- not have it.
pub data Included (s : Objects) (mods : Word → List Word) (obj included : Word)
    : Result (Bool × Objects) → Type 0 where
  already : Member included (mods obj) → Included s mods obj included (ok (false, s))
  circular :
      ¬ Member included (mods obj) → Leads mods obj included → Included s mods obj included thrown
  added :
      (t : Objects) (rank : Word → ℕ)
      → ¬ Member included (mods obj)
      → (Leads mods obj included → ⊥)
      → Acyclic t (with_module mods obj included) rank
      → Included s mods obj included (ok (true, t))

Member-append : (m x : Word) (xs : List Word) → Member m (xs ++ x ∷ []) → Member m xs ⊎ (m ≡ x)
Member-append m x [] (inl e) = inr e
Member-append m x [] (inr i) = elim i [ ]
Member-append m x (y ∷ ys) (inl e) = inl (inl e)
Member-append m x (y ∷ ys) (inr i) = elim (Member-append m x ys i) [
  | inl j ↦ inl (inr j)
  | inr e ↦ inr e
]

slot-Member : (xs : List Word) (v : Word) → slot xs v < length xs → Member v xs
slot-Member [] v h = absurd (omega arith)
slot-Member (x ∷ xs) v h = elim (Bool-cases (x == v)) [
  | inl e ↦ inl (sym ((==_iff x v).0 e))
  | inr e ↦ inr (slot-Member xs v (ground (arith, h, e)))
]

Member-slot : (xs : List Word) (v : Word) → Member v xs → slot xs v < length xs
Member-slot [] v i = elim i [ ]
Member-slot (x ∷ xs) v (inl e) =
    let hit : (x == v) ≡ true = (==_iff x v).1 (sym e) in rw hit (omega arith)
Member-slot (x ∷ xs) v (inr i) = ground (arith, Member-slot xs v i)

module _ (s : Objects) (mods : Word → List Word) (rank : Word → ℕ) (obj included : Word)
    (a : Acyclic s mods rank) where
  reached : (x : Word) → (as_bool (is_included (suc (rank x)) s x obj) ≡ true) ↔ Leads mods obj x
  reached x = as_bool_iff (is_included-Decides (rank x) s mods rank x obj a (omega arith))

  raised-lt :
      (x m : Word) → Member m (mods x) → raised s rank obj included m < raised s rank obj included x
  raised-lt x m i =
      let lower = a.ranked x m i in
      let up : as_bool (is_included (suc (rank m)) s m obj) ≡ true
          → as_bool (is_included (suc (rank x)) s x obj) ≡ true =
        λ e. (reached x).1 (through_module m i ((reached m).0 e)) in
      ground (arith, lower, up)

  raised-included :
      (Leads mods obj included → ⊥)
      → raised s rank obj included included < raised s rank obj included obj
  raised-included apart =
      let top : as_bool (is_included (suc (rank obj)) s obj obj) ≡ true =
        (reached obj).1 (at_goal refl) in
      let low : as_bool (is_included (suc (rank included)) s included obj) ≢ true =
        λ e. apart ((reached included).0 e) in
      ground (arith, top, low)

  -- A module of an object afterwards is one of before, or the new one.
  new_or_old :
      (x m : Word)
      → Member m (with_module mods obj included x)
      → Member m (mods x) ⊎ ((x ≡ obj) × (m ≡ included))
  new_or_old x m i = elim (Bool-cases (x == obj)) [
    | inl e ↦
        let z : x ≡ obj = (==_iff x obj).0 e in
        elim (Member-append m included (mods obj)
          (subst (λ b. Member m (if b then mods obj ++ included ∷ [] else mods x)) e i)) [
            | inl k ↦ inl (subst (λ w. Member m (mods w)) (sym z) k)
            | inr q ↦ inr (z, q)
          ]
    | inr e ↦ inl (subst (λ b. Member m (if b then mods obj ++ included ∷ [] else mods x)) e i)
  ]

  with_modules-Acyclic :
      {b : Array}
      → Holds b (mods obj ++ included ∷ [])
      → is_normal_object s.type_at included ≡ true
      → (Leads mods obj included → ⊥)
      → Acyclic (with_modules s obj b) (with_module mods obj included) (raised s rank obj included)
  with_modules-Acyclic {b} h normal apart = record {
    held = λ x. elim (Bool-cases (x == obj)) [ inl e ↦ rw e h | inr e ↦ rw e (a.held x) ];
    normal = λ x m i. elim (new_or_old x m i) [
      | inl k ↦ a.normal x m k
      | inr (z, q) ↦ subst (λ w. is_normal_object s.type_at w ≡ true) (sym q) normal
    ];
    ranked = λ x m i. elim (new_or_old x m i) [
      | inl k ↦ raised-lt x m k
      | inr (z, q) ↦
          subst (λ w. raised s rank obj included m < raised s rank obj included w) (sym z)
            (subst (λ w. raised s rank obj included w < raised s rank obj included obj) (sym q)
              (raised-included apart))
    ];
  }

  when_pushed :
      {r : Result (Word × Array)}
      → ¬ Member included (mods obj)
      → (Leads mods obj included → ⊥)
      → is_normal_object s.type_at included ≡ true
      → Returns (Stored included (mods obj ++ included ∷ [])) r
      → Included s mods obj included (r >>= λ (w, b). ok (true, with_modules s obj b))
  when_pushed new apart normal (returns {a = (w, b)} (e, h)) =
      added (with_modules s obj b) (raised s rank obj included) new apart
        (with_modules-Acyclic h normal apart)

  when_searched :
      {r : Result Bool}
      → ¬ Member included (mods obj)
      → is_normal_object s.type_at included ≡ true
      → suc (length (mods obj)) < u32_mod
      → Decides (Leads mods obj included) r
      → Included s mods obj included (
          r >>= λ loop.
          if loop
          then thrown
          else (array_push (s.object_at obj).included_modules included >>= λ (w, b).
              ok (true, with_modules s obj b)))
  when_searched new normal small (holds l) = circular new l
  when_searched new normal small (fails apart) =
      when_pushed new apart normal (array_push-append included (a.held obj) small)

-- Where `array_find` says that a module is.
found_or_not :
    {xs : List Word} {v : Word} {r : ℤ}
    → Located xs v 0 r
    → ((is_negative r ≡ false) × Member v xs) ⊎ ((is_negative r ≡ true) × (¬ Member v xs))
found_or_not {xs} {v} (located n e lt w) = inl (refl, slot-Member xs v lt)
found_or_not {xs} {v} (absent e w) = inr (refl, λ i. absurd (omega (arith, Member-slot xs v i, e)))

-- Without circles `snow_object_include` of a normal object, with fuel for its rank and room for one
-- more module, changes nothing and returns false if the object has the module, throws if the module
-- leads to the object, and else adds it, returns true, and leaves the objects without circles.
pub object_include-Included :
    (n : ℕ) (s : Objects) (mods : Word → List Word) (rank : Word → ℕ) (obj included : Word)
    → Acyclic s mods rank
    → rank included ≤ n
    → is_normal_object s.type_at included ≡ true
    → suc (length (mods obj)) < u32_mod
    → Included s mods obj included (object_include (suc n) s obj included)
unfolding object_include
object_include-Included n s mods rank obj included a le normal small =
    let found = (array_find-position (λ x y. pos 0) included (a.held obj)).0 in
    elim (found_or_not (position-Located (mods obj) included)) [
      | inl (e, i) ↦ rw (found, e) (already i)
      | inr (e, new) ↦
          rw (found, e)
            (when_searched s mods rank obj included a new normal small
              (is_included-Decides n s mods rank included obj a le))
    ]
