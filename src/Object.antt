-- ===== src/Object.antt =====
-- snow/object.c: objects with members, properties and included modules. Memory maps an address to the
-- object there and to the type in its header. A property's getter and setter are neighbours in the
-- property data.
pub mod Includes
pub mod Include
pub mod Properties
pub mod Members
mod Tests
use snow.Base.{
  Bool, Option, Result, assert, false, if◌then◌else◌, negsuc, none, not, ok, pos, some, suc, thrown,
  trap, true, zero, ℕ, ℤ, ◌&&◌, ◌*◌, ◌+◌, ◌==◌, ◌>>=◌, ◌>>◌,
}
use snow.Array.{
  Array, array_erase, array_find, array_get, array_init, array_push, array_set, is_negative,
}
use snow.Map.{SnMap, create_map, map_get, map_set}
use snow.Value.{
  ObjectType, Word, class_type, eval_truth, exception_type, function_type, is_object, null,
  object_type, symbol_to_value,
}

-- `SnObject`, without its header
pub record SnObject : Type 0 where
  pub flags : ℕ
  pub prototype : Word
  pub members : Option SnMap
  pub property_names : Array
  pub property_data : Array
  pub included_modules : Array

pub record Objects : Type 0 where
  pub type_at : Word → ObjectType
  pub object_at : Word → SnObject

-- `SN_FLAG_ASSIGNED` is set on a new object.
abbrev pub object_init : Word → SnObject
object_init prototype = record {
  flags = 1;
  prototype = prototype;
  members = none;
  property_names = array_init;
  property_data = array_init;
  included_modules = array_init;
}

abbrev pub is_normal_type : ObjectType → Bool
is_normal_type object_type = true
is_normal_type class_type = true
is_normal_type function_type = true
is_normal_type exception_type = true
is_normal_type other = false

-- `snow_is_normal_object` of snow/snow.c
unfoldable pub is_normal_object : (Word → ObjectType) → Word → Bool
is_normal_object type_at val = is_object val && is_normal_type (type_at val)

abbrev pub with_modules : Objects → Word → Array → Objects
with_modules s obj a = record s {
  object_at =
      λ x. if x == obj then record (s.object_at x) { included_modules = a } else s.object_at x;
}

-- The loop of `snow_object_is_included` over the indices `i … i + k`; `again` is the recursive call.
unfoldable pub included_in : (Word → Result Bool) → (Word → Bool) → Array → (i k : ℕ) → Result Bool
included_in again is_normal a i zero = ok false
included_in again is_normal a i (suc k) =
    let rest = included_in again is_normal a (i + 1) k in
    (do
      module_at ← array_get a (pos i)
      assert (is_normal module_at)
      hit ← again module_at
      if hit then ok true else rest)

-- Fuel for the depth of the modules; it traps when that is used up.
unfoldable pub is_included : ℕ → Objects → Word → Word → Result Bool
is_included zero s object included = trap
is_included (suc n) s object included =
    if object == included
    then ok true
    else included_in (λ x. is_included n s x included) (is_normal_object s.type_at)
        (s.object_at object).included_modules 0 (s.object_at object).included_modules.size

unfoldable pub object_include : ℕ → Objects → Word → Word → Result (Bool × Objects)
object_include n s obj included = do
  found ← array_find (s.object_at obj).included_modules included
  if not (is_negative found) then ok (false, s) else (do
    circular ← is_included n s included obj
    if circular then thrown else (do
      (w, a) ← array_push (s.object_at obj).included_modules included
      ok (true, with_modules s obj a)))

unfoldable pub object_uninclude : Objects → Word → Word → Result (Bool × Objects)
object_uninclude s obj included = do
  idx ← array_find (s.object_at obj).included_modules included
  if not (is_negative idx)
      then (do
        (w, a) ← array_erase (s.object_at obj).included_modules idx
        ok (true, with_modules s obj a))
      else ok (false, s)

unfoldable pub create_or_get_index_of_property : SnObject → ℕ → Result (ℤ × SnObject)
create_or_get_index_of_property obj name = do
  idx ← array_find obj.property_names (symbol_to_value name)
  if is_negative idx
      then (do
        (w, a) ← array_push obj.property_names (symbol_to_value name)
        ok (pos obj.property_names.size, record obj { property_names = a }))
      else ok (idx, obj)

-- `idx << 1`, and `idx << 1 | 1`
abbrev pub getter_index : ℤ → ℤ
getter_index (pos n) = pos (2 * n)
getter_index (negsuc n) = negsuc (2 * n + 1)

abbrev pub setter_index : ℤ → ℤ
setter_index (pos n) = pos (2 * n + 1)
setter_index (negsuc n) = negsuc (2 * n)

unfoldable pub set_property_getter : SnObject → ℕ → Word → Result SnObject
set_property_getter obj symbol getter = do
  (idx, o) ← create_or_get_index_of_property obj symbol
  (w, a) ← array_set o.property_data (getter_index idx) getter
  ok (record o { property_data = a })

unfoldable pub set_property_setter : SnObject → ℕ → Word → Result SnObject
set_property_setter obj symbol setter = do
  (idx, o) ← create_or_get_index_of_property obj symbol
  (w, a) ← array_set o.property_data (setter_index idx) setter
  ok (record o { property_data = a })

-- The getter or the setter of a property, as the member functions look it up.
unfoldable pub property_at : SnObject → ℕ → (ℤ → ℤ) → Result (Option Word)
property_at obj member accessor = do
  idx ← array_find obj.property_names (symbol_to_value member)
  if is_negative idx
      then ok none
      else (do v ← array_get obj.property_data (accessor idx); ok (some v))

-- The loop of `snow_object_get_included_member` over the indices `i … i + k`.
unfoldable pub get_included_in :
    (Word → Result Word) → (Word → Bool) → Array → (i k : ℕ) → Result Word
get_included_in again is_normal a i zero = ok null
get_included_in again is_normal a i (suc k) =
    let rest = get_included_in again is_normal a (i + 1) k in
    (do
      module_at ← array_get a (pos i)
      assert (is_normal module_at)
      val ← again module_at
      if val == null then rest else ok val)

abbrev pub own_member : SnObject → ℕ → Word
own_member obj member = elim obj.members [
  | none ↦ null
  | some m ↦ map_get m (symbol_to_value member)
]

-- `call` is what `snow_call(self, getter, 0)` returns, whose effects on memory are not followed; a
-- property without a getter is a trap.
abbrev pub get_without_prototype :
    (Word → Word → Result Word) → SnObject → Word → ℕ → Result Word → Option Word → Result Word
get_without_prototype call obj self member from_module (some getter) =
    if eval_truth getter then call self getter else trap
get_without_prototype call obj self member from_module none =
    if own_member obj member == null then from_module else ok (own_member obj member)

-- `object_get_member_without_prototype_but_with_modules`, with fuel for the depth of the modules
unfoldable pub get_member_with_modules :
    ℕ → (Word → Word → Result Word) → Objects → Word → Word → ℕ → Result Word
get_member_with_modules zero call s obj self member = trap
get_member_with_modules (suc n) call s obj self member =
    let from_module =
      get_included_in (λ x. get_member_with_modules n call s x self member)
        (is_normal_object s.type_at) (s.object_at obj).included_modules 0
        (s.object_at obj).included_modules.size in
    (do
      property ← property_at (s.object_at obj) member getter_index
      get_without_prototype call (s.object_at obj) self member from_module property)

-- `default_prototype` is `snow_get_prototype(snow_typeof(obj))`; fuel for the prototypes and the modules.
unfoldable pub get_member :
    ℕ → (Word → Word) → (Word → Word → Result Word) → Objects → Word → Word → ℕ → Result Word
get_member zero default_prototype call s obj self member = trap
get_member (suc n) default_prototype call s obj self member =
    let own : Word = (s.object_at obj).prototype in
    let prototype : Word = if own == null then default_prototype obj else own in
    let inherited = get_member n default_prototype call s prototype self member in
    (do
      val ← get_member_with_modules (suc n) call s obj self member
      if not (val == null) then ok val else if not (prototype == obj) then inherited else ok null)

abbrev pub set_by_setter :
    (Word → Word → Word → Result Word) → Word → Word → Result Word → Option Word → Result Word
set_by_setter call self val inherited (some setter) =
    if eval_truth setter then call self setter val else trap
set_by_setter call self val inherited none = inherited

-- `call` is `snow_call(self, setter, 1, val)`; a property without a setter is a trap. Fuel for the
-- prototypes.
unfoldable pub set_with_property :
    ℕ → (Word → Word → Word → Result Word) → Objects → Word → Word → ℕ → Word → Result Word
set_with_property zero call s obj self member val = trap
set_with_property (suc n) call s obj self member val =
    let prototype : Word = (s.object_at obj).prototype in
    let inherited = set_with_property n call s prototype self member val in
    (do
      property ← property_at (s.object_at obj) member setter_index
      set_by_setter call self val (if prototype == null then ok null else inherited) property)

abbrev pub with_members : Objects → Word → SnMap → Objects
with_members s obj m = record s {
  object_at = λ x. if x == obj then record (s.object_at x) { members = some m } else s.object_at x;
}

-- `if (!obj->members) obj->members = snow_create_map();`
abbrev pub members_of : SnObject → SnMap
members_of o = elim o.members [ none ↦ create_map | some m ↦ m ]

unfoldable pub set_member :
    ℕ
    → (Word → Word → Word → Result Word)
    → Objects
    → Word
    → Word
    → ℕ
    → Word
    → Result (Word × Objects)
set_member n call s obj self member val =
    let m : SnMap = members_of (s.object_at obj) in
    (do
      with_property ← set_with_property n call (with_members s obj m) obj self member val
      if not (with_property == null) then ok (with_property, with_members s obj m) else (do
        after ← map_set m (symbol_to_value member) val
        ok (val, with_members s obj after)))
