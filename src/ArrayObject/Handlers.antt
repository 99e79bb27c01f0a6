-- ===== src/ArrayObject/Handlers.antt =====
-- snow/array.c: the checks of the functions that take a closure as their first argument, and the calls
-- of the closure. `call` gets the closure first.
use snow.Base.{List, Result, assert, ℕ, ◌>>◌}
use snow.Array.{Array}
use snow.ArrayObject.{arg, is_array_type, require_args}
use snow.ArrayObject.Closures.{
  array_inject, array_map, array_reject, array_select, detect_from, each_from,
}
use snow.Value.{ObjectType, Word}

-- `ASSERT_TYPE(SELF, SN_ARRAY_TYPE)` and `REQUIRE_ARGS(1)`
abbrev pub with_one {ℓ} : {A : Type ℓ} → ObjectType → List Word → Result A → Result A
with_one self_type args rest = do assert (is_array_type self_type); require_args 1 args; rest

module _ {ℓ} {S : Type ℓ} (call : Word → S → List Word → Result (Word × S)) (self : S → Array)
    (self_type : ObjectType) (args : List Word) where
  unfoldable pub call_each : ℕ → S → Result S
  call_each n s = with_one self_type args (each_from (call (arg args 0)) self n s 0)

  unfoldable pub call_map : ℕ → S → Result (Array × S)
  call_map n s = with_one self_type args (array_map (call (arg args 0)) self n s)

  unfoldable pub call_select : ℕ → S → Result (Array × S)
  call_select n s = with_one self_type args (array_select (call (arg args 0)) self n s)

  unfoldable pub call_reject : ℕ → S → Result (Array × S)
  call_reject n s = with_one self_type args (array_reject (call (arg args 0)) self n s)

  unfoldable pub call_inject : S → Result (Word × S)
  call_inject s = with_one self_type args (array_inject (call (arg args 0)) self s)

  unfoldable pub call_detect : ℕ → S → Result (Word × S)
  call_detect n s = with_one self_type args (detect_from (call (arg args 0)) self n s 0)
