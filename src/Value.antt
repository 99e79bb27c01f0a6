-- ===== src/Value.antt =====
-- snow/intern.h, snow/object.h and `snow_eval_truth` of snow/snow.c: a VALUE is a 64-bit word, either
-- the address of an object or an immediate whose low bits are a type tag.
pub mod Ints
pub mod Tags
mod Tests
use snow.Base.{
  Bool, Result, if◌then◌else◌, ltb, negsuc, not, ok, pos, sym, trap, ℕ, ℤ, ◌%◌, ◌&&◌, ◌*◌, ◌+◌, ◌-◌,
  ◌/◌, ◌==◌, ◌^◌, ◌||◌,
}

-- A 64-bit word; a VALUE.
abbrev pub Word : Type 0
Word = ℕ

abbrev pub word_mod : ℕ
word_mod = 2 ^ 64

abbrev pub sign_bit : ℕ
sign_bit = 2 ^ 63

-- `NULL`, `SN_NIL`, `SN_FALSE` and `SN_TRUE`
abbrev pub null : Word
null = 0

abbrev pub sn_nil : Word
sn_nil = 2

abbrev pub sn_false : Word
sn_false = 4

abbrev pub sn_true : Word
sn_true = 6

-- `enum SnObjectType`
pub data ObjectType : Type 0 where
  object_type class_type function_type exception_type : ObjectType
  continuation_type context_type arguments_type function_description_type string_type : ObjectType
  array_type map_type codegen_type pointer_type ast_type deferred_task_type : ObjectType
  integer_type nil_type boolean_type symbol_type float_type : ObjectType

unfoldable pub is_integer : Word → Bool
is_integer v = v % 2 == 1

unfoldable pub is_object : Word → Bool
is_object v = not (v == 0) && (v % 16 == 0)

unfoldable pub is_true : Word → Bool
is_true v = v == 6

unfoldable pub is_false : Word → Bool
is_false v = v == 4

unfoldable pub is_boolean : Word → Bool
unfolding is_true is_false
is_boolean v = is_true v || is_false v

unfoldable pub is_nil : Word → Bool
is_nil v = v == 2

unfoldable pub is_symbol : Word → Bool
is_symbol v = v % 16 == 10

unfoldable pub is_float : Word → Bool
is_float v = v % 16 == 14

unfoldable pub is_numeric : Word → Bool
unfolding is_integer is_float
is_numeric v = is_integer v || is_float v

-- The bit pattern of an `intx`, in two's complement, and the `intx` of a bit pattern.
abbrev pub to_word : ℤ → Word
to_word (pos n) = n % word_mod
to_word (negsuc n) = word_mod - 1 - n % word_mod

abbrev pub to_intx : Word → ℤ
to_intx w = if ltb w sign_bit then pos w else negsuc (word_mod - w - 1)

-- `(intx)v >> 1`, an arithmetic shift
abbrev pub shift_right : Word → Word
shift_right v = v / 2 + (if ltb v sign_bit then 0 else sign_bit)

-- `w | (intx)1 << 63`
abbrev pub set_sign : Word → Word
set_sign w = if ltb w sign_bit then w + sign_bit else w

-- The low bit of `n << 1` is clear, so `| 1` adds one.
unfoldable pub int_to_value : ℤ → Word
int_to_value n = to_word n * 2 % word_mod + 1

unfoldable pub value_to_int : Word → ℤ
value_to_int v = to_intx (if ltb v sign_bit then shift_right v else set_sign (shift_right v))

unfoldable pub boolean_to_value : Bool → Word
boolean_to_value b = if b then sn_true else sn_false

-- The low four bits of `sym << 4` are clear, so `| kSymbolType` adds ten.
unfoldable pub symbol_to_value : ℕ → Word
symbol_to_value sym = sym * 16 % word_mod + 10

unfoldable pub value_to_symbol : Word → ℕ
value_to_symbol v = v / 16

-- A `float` is the 32-bit pattern that the C code moves.
unfoldable pub float_to_value : ℕ → Word
float_to_value f = f * 2 ^ 16 % word_mod + 14

unfoldable pub value_to_float : Word → ℕ
value_to_float v = v / 2 ^ 16 % 2 ^ 32

unfoldable pub eval_truth : Word → Bool
eval_truth v = not (v == null || (v == sn_nil) || (v == sn_false))

-- `type_at` reads the header of the object at an address.
unfoldable pub typeof : (Word → ObjectType) → Word → Result ObjectType
unfolding is_object is_integer is_nil is_boolean is_symbol is_float
typeof type_at v =
    if is_object v
    then ok (type_at v)
    else if is_integer v
    then ok integer_type
    else if is_nil v || (v == 0)
    then ok nil_type
    else if is_boolean v
    then ok boolean_type
    else if is_symbol v
    then ok symbol_type
    else if is_float v
    then ok float_type
    else trap
