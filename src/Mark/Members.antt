-- ===== src/Mark/Members.antt =====
-- The objects whose members the collector can list.
use snow.Base.{Bool, arith, false, if◌then◌else◌, ok, trap, true, ℕ, ◌>>=◌, ◌↔◌, ◌∷◌, ◌≡◌}
use snow.Mark.{
  normal_slots, object_slots, slot_included_modules, slot_members, slot_property_data,
  slot_property_names, slot_prototype, thin_slots,
}
use snow.Object.{is_normal_type}
use snow.Value.{
  ObjectType, Word, boolean_type, deferred_task_type, float_type, integer_type, is_object, nil_type,
  symbol_type,
}

-- The types of words that are no objects, and deferred tasks.
abbrev pub is_unlisted : ObjectType → Bool
is_unlisted integer_type = true
is_unlisted nil_type = true
is_unlisted boolean_type = true
is_unlisted symbol_type = true
is_unlisted float_type = true
is_unlisted deferred_task_type = true
is_unlisted other = false

-- At an address that can be an object's, listing the members of an object traps exactly for the types of
-- immediates and for deferred tasks.
pub object_slots-trap :
    (o : Word) (t : ObjectType) (n : ℕ)
    → is_object o ≡ true
    → (object_slots o t n ≡ trap) ↔ (is_unlisted t ≡ true)
unfolding object_slots
object_slots-trap o t n h = rw h (by_type t)
  where
    by_type :
        (t : ObjectType)
        → ((if is_normal_type t
              then (normal_slots t n >>= λ more. ok (
                  slot_prototype ∷ slot_members ∷ slot_property_names ∷ slot_property_data
                  ∷ slot_included_modules ∷ more))
              else thin_slots t n)
            ≡ trap)
          ↔ (is_unlisted t ≡ true)
    by_type t = ground arith
