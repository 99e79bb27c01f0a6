-- ===== src/Object/Tests.antt =====
-- Tests of the objects.
use snow.Base.{Returns, [], arith, negsuc, ok, refl, true, ◌≡◌}
use snow.Array.{array_find, array_init, find_from}
use snow.Array.Holds.{array_init-Holds}
use snow.Map.Keys.{default-IsEquivalence}
use snow.Object.{
  Objects, get_member, is_included, is_normal_object, object_include, object_init, set_member,
}
use snow.Object.Include.{Included, object_include-Included}
use snow.Object.Includes.{Acyclic, Decides, Leads, is_included-Decides}
use snow.Object.Members.{at_root, get_member-set_member}
use snow.Value.{is_object, null, object_type, symbol_to_value}

-- Every object is new.
abbrev new_objects : Objects
new_objects = record { type_at = λ x. object_type; object_at = λ x. object_init null }

new_objects-Acyclic : Acyclic new_objects (λ x. []) (λ x. 0)
new_objects-Acyclic = record {
  held = λ x. array_init-Holds;
  normal = λ x m i. elim i [ ];
  ranked = λ x m i. elim i [ ];
}

object_32 : is_normal_object new_objects.type_at 32 ≡ true
unfolding is_normal_object is_object
object_32 = refl

no_property : array_find array_init (symbol_to_value 3) ≡ ok (negsuc 0)
unfolding array_find find_from
no_property = refl

is_included-Decides_example : Decides (Leads (λ x. []) 32 16) (is_included 1 new_objects 16 32)
is_included-Decides_example =
    is_included-Decides 0 new_objects (λ x. []) (λ x. 0) 16 32 new_objects-Acyclic (omega arith)

object_include-Included_example :
    Included new_objects (λ x. []) 16 32 (object_include 1 new_objects 16 32)
object_include-Included_example =
    object_include-Included 0 new_objects (λ x. []) (λ x. 0) 16 32 new_objects-Acyclic (omega arith)
      object_32 (omega arith)

get_member-set_member_example :
    Returns
      (λ (w, t). (w ≡ 99) × (get_member 1 (λ x. null) (λ x y. ok null) t 16 16 3 ≡ ok 99))
      (set_member 1 (λ x y z. ok null) new_objects 16 16 3 99)
get_member-set_member_example =
    get_member-set_member 1 0 (λ x. null) (λ x y. ok null) (λ x y z. ok null) new_objects 16 16 3 99
      (at_root no_property refl) default-IsEquivalence (omega arith)
