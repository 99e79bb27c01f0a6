-- ===== src/Value/Tests.antt =====
-- Tests of the immediates.
use snow.Base.{negsuc, refl, trap, ◌≡◌}
use snow.Value.{Word, int_to_value, map_type, typeof, value_to_int}

minus_five : value_to_int (int_to_value (negsuc 4)) ≡ negsuc 4
unfolding value_to_int int_to_value
minus_five = refl

unused_tag : typeof (λ v. map_type) 24 ≡ trap
unfolding typeof
unused_tag = refl

abbrev v_false : Word
v_false = 6
