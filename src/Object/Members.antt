-- ===== src/Object/Members.antt =====
-- Members of snow/object.c: what is set is what is got.
use snow.Base.{
  Bool-cases, Result, Returns, Returns-bind, ap, arith, false, if◌then◌else◌, inl, inr, negsuc,
  none, ok, refl, returns, subst, suc, sym, true, zero, ℕ, ℤ, ◌==◌, ◌∙◌, ◌≡◌, ◌≢◌,
}
use snow.Array.{array_find}
use snow.Map.{SnMap, map_get}
use snow.Object.{
  Objects, SnObject, get_member, get_member_with_modules, getter_index, members_of, own_member,
  property_at, set_member, set_with_property, setter_index, with_members,
}
use snow.Value.{Word, null, symbol_to_value}
use snow.Map.Laws.{IsEquivalence, map_get-map_set}

-- No object of the chain of prototypes, from the address on, has the property.
pub data NoProperty (s : Objects) (member : ℕ) : ℕ → Word → Type 0 where
  at_root :
      {n : ℕ} {obj : Word}
      → array_find (s.object_at obj).property_names (symbol_to_value member) ≡ ok (negsuc 0)
      → (s.object_at obj).prototype ≡ null
      → NoProperty s member (suc n) obj
  at_child :
      {n : ℕ} {obj : Word}
      → array_find (s.object_at obj).property_names (symbol_to_value member) ≡ ok (negsuc 0)
      → NoProperty s member n (s.object_at obj).prototype
      → NoProperty s member (suc n) obj

-- Creating or changing members changes nothing else.
same_names :
    (s : Objects) (obj x : Word) (m : SnMap)
    → ((with_members s obj m).object_at x).property_names ≡ (s.object_at x).property_names
same_names s obj x m = elim (Bool-cases (x == obj)) [ inl e ↦ rw e refl | inr e ↦ rw e refl ]

same_prototype :
    (s : Objects) (obj x : Word) (m : SnMap)
    → ((with_members s obj m).object_at x).prototype ≡ (s.object_at x).prototype
same_prototype s obj x m = elim (Bool-cases (x == obj)) [ inl e ↦ rw e refl | inr e ↦ rw e refl ]

symbol-not_null : (member : ℕ) → symbol_to_value member ≢ null
unfolding symbol_to_value
symbol-not_null member e = omega (arith, e)

no_accessor :
    (o : SnObject) (member : ℕ) (accessor : ℤ → ℤ)
    → array_find o.property_names (symbol_to_value member) ≡ ok (negsuc 0)
    → property_at o member accessor ≡ ok none
unfolding property_at
no_accessor o member accessor e = rw e refl

NoProperty-with_members :
    (n : ℕ) (s : Objects) (start : Word) (member : ℕ) (obj : Word) (m : SnMap)
    → NoProperty s member n start
    → NoProperty (with_members s obj m) member n start
NoProperty-with_members zero s start member obj m np = elim np [ ]
NoProperty-with_members (suc n) s start member obj m (at_root e z) =
    at_root (ap (λ a. array_find a (symbol_to_value member)) (same_names s obj start m) ∙ e)
      (same_prototype s obj start m ∙ z)
NoProperty-with_members (suc n) s start member obj m (at_child e np) =
    at_child (ap (λ a. array_find a (symbol_to_value member)) (same_names s obj start m) ∙ e) (
      subst (NoProperty (with_members s obj m) member n) (sym (same_prototype s obj start m))
        (NoProperty-with_members n s (s.object_at start).prototype member obj m np))

set_with_property-none :
    (n : ℕ) (call : Word → Word → Word → Result Word) (s : Objects) (start self : Word) (member : ℕ)
    (val : Word)
    → NoProperty s member n start
    → set_with_property n call s start self member val ≡ ok null
unfolding set_with_property
set_with_property-none zero call s start self member val np = elim np [ ]
set_with_property-none (suc n) call s start self member val (at_root e z) =
    let root : ((s.object_at start).prototype == null) ≡ true = ground (arith, z) in
    rw (no_accessor (s.object_at start) member setter_index e, root) refl
set_with_property-none (suc n) call s start self member val (at_child e np) =
    elim (Bool-cases ((s.object_at start).prototype == null)) [
      | inl root ↦ rw (no_accessor (s.object_at start) member setter_index e, root) refl
      | inr child ↦
          rw (no_accessor (s.object_at start) member setter_index e, child)
            (set_with_property-none n call s (s.object_at start).prototype self member val np)
    ]

own_property :
    {n : ℕ} {s : Objects} {member : ℕ} {obj : Word}
    → NoProperty s member n obj
    → array_find (s.object_at obj).property_names (symbol_to_value member) ≡ ok (negsuc 0)
own_property (at_root e z) = e
own_property (at_child e np) = e

stored :
    (s : Objects) (obj : Word) (m : SnMap) (member : ℕ)
    → own_member ((with_members s obj m).object_at obj) member ≡ map_get m (symbol_to_value member)
stored s obj m member = let self : (obj == obj) ≡ true = ground arith in rw self refl

got :
    (k : ℕ) (getter : Word → Word → Result Word) (s : Objects) (obj self : Word) (member : ℕ)
    (val : Word)
    → array_find (s.object_at obj).property_names (symbol_to_value member) ≡ ok (negsuc 0)
    → own_member (s.object_at obj) member ≡ val
    → val ≢ null
    → get_member_with_modules (suc k) getter s obj self member ≡ ok val
unfolding get_member_with_modules
got k getter s obj self member val e m real =
    let there : (own_member (s.object_at obj) member == null) ≡ false = ground (arith, m, real) in
    rw (no_accessor (s.object_at obj) member getter_index e, there) (ap ok m)

-- If neither the object nor a prototype of it has the property, the comparison of its members is an
-- equivalence and the value is not NULL, then setting a member succeeds and returns the value, and the
-- member is got from the object afterwards, with fuel for one object.
pub get_member-set_member :
    (n k : ℕ) (default_prototype : Word → Word) (getter : Word → Word → Result Word)
    (setter : Word → Word → Word → Result Word) (s : Objects) (obj self : Word) (member : ℕ)
    (val : Word)
    → NoProperty s member n obj
    → IsEquivalence (members_of (s.object_at obj)).compare_with
    → val ≢ null
    → Returns
        (λ (w, t).
          (w ≡ val) × (get_member (suc k) default_prototype getter t obj self member ≡ ok val))
        (set_member n setter s obj self member val)
unfolding set_member get_member
get_member-set_member n k default_prototype getter setter s obj self member val np eqv real =
    let m : SnMap = members_of (s.object_at obj) in
    let v : Word = symbol_to_value member in
    let name : v ≢ null = symbol-not_null member in
    let none_set =
      set_with_property-none n setter (with_members s obj m) obj self member val
        (NoProperty-with_members n s obj member obj m np) in
    rw none_set (
      Returns-bind (map_get-map_set m v v val eqv name) (λ after read.
        let no_own = own_property (NoProperty-with_members n s obj member obj after np) in
        let value =
          stored s obj after member
          ∙ read
          ∙ ap (λ b. if b then val else map_get m v) (eqv.same_refl v) in
        let there : (val == null) ≡ false = ground (arith, real) in
        returns (
          refl,
          rw (got k getter (with_members s obj after) obj self member val no_own value real, there)
              refl,
        )))
