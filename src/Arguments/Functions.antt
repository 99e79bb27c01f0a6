-- ===== src/Arguments/Functions.antt =====
-- snow/arguments.c: the functions of the class of arguments that programs call. `call` is the call of the
-- closure, `self` the arguments in the state, which the closure may change.
use snow.Base.{
  Bool, List, Result, Returns, Returns-bind, [], ap, append-nil, append_assoc, arith, assert, false,
  if◌then◌else◌, length, length-append, ltb, ok, pos, refl, returns, subst, suc, sym, trap, true,
  zero, ℕ, ◌++◌, ◌+◌, ◌<◌, ◌==◌, ◌>>=◌, ◌>>◌, ◌∷◌, ◌≡◌, ◌≤◌,
}
use snow.Arguments.{Arguments}
use snow.Array.{Array, array_get, array_push, create_array_with_size, u32_mod}
use snow.Array.Growth.{array_push-append}
use snow.Array.Holds.{Holds, create_array_with_size-Holds}
use snow.ArrayObject.{arg, require_args}
use snow.ArrayObject.Closures.{detect_from}
use snow.ArrayObject.Iterate.{Holds-Round, Round, next_index, next_split}
use snow.Value.{ObjectType, Word, arguments_type, boolean_to_value, sn_nil}
use snow.ArrayObject.Select.{kept_length}

abbrev pub is_arguments_type : ObjectType → Bool
is_arguments_type arguments_type = true
is_arguments_type other = false

unfoldable pub arguments_any : ObjectType → Arguments → Result Word
arguments_any self_type args = do
  assert (is_arguments_type self_type)
  ok (boolean_to_value (ltb 0 args.args_data.size))

-- `if (name == SN_NIL) snow_array_push(result, val)`
abbrev pub push_if : Bool → Array → Word → Result Array
push_if false result val = ok result
push_if true result val = do (w, b) ← array_push result val; ok b

-- The loop of `arguments_unnamed` over the indices `i … i + k`
unfoldable pub unnamed_from : Arguments → Array → (i k : ℕ) → Result Array
unnamed_from args result i zero = ok result
unnamed_from args result i (suc k) = do
  name ← array_get args.names (pos i)
  val ← array_get args.args_data (pos i)
  b ← push_if (name == sn_nil) result val
  unnamed_from args b (i + 1) k

unfoldable pub arguments_unnamed : ObjectType → Arguments → Result Array
arguments_unnamed self_type args = do
  assert (is_arguments_type self_type)
  unnamed_from args (create_array_with_size args.args_data.size) 0 args.args_data.size

-- The arguments without a name.
abbrev pub without_name : List Word → List Word → List Word
without_name [] vs = []
without_name (n ∷ ns) [] = []
without_name (n ∷ ns) (v ∷ vs) = (if n == sn_nil then v ∷ [] else []) ++ without_name ns vs

push_if-Holds :
    (b : Bool) {result : Array} {outs : List Word} (v : Word)
    → Holds result outs
    → suc (length outs) < u32_mod
    → Returns (λ r. Holds r (outs ++ (if b then v ∷ [] else []))) (push_if b result v)
push_if-Holds false v h small = returns (rw append-nil h)
push_if-Holds true v h small =
    Returns-bind (array_push-append v h small) (λ (w, c) (q, k). returns k)

unnamed_from-without_name :
    (k : ℕ) (args : Arguments) (result : Array)
    (ns vs done_names done_values outs all_names all_values : List Word)
    → Holds args.names all_names
    → Holds args.args_data all_values
    → all_names ≡ done_names ++ ns
    → all_values ≡ done_values ++ vs
    → length done_names ≡ length done_values
    → length ns ≡ k
    → length vs ≡ k
    → Holds result outs
    → length outs ≤ length done_values
    → Returns
        (λ r. Holds r (outs ++ without_name ns vs))
        (unnamed_from args result (length done_names) k)
unfolding unnamed_from
unnamed_from-without_name zero args result [] vs dn dv outs an av hn hv en ev same ln lv ho few =
    returns (rw append-nil ho)
unnamed_from-without_name zero args result (n ∷ ns) vs dn dv outs an av hn hv en ev same ln lv ho
      few =
    absurd (omega arith)
unnamed_from-without_name (suc k) args result [] vs dn dv outs an av hn hv en ev same ln lv ho few =
    absurd (omega arith)
unnamed_from-without_name (suc k) args result (n ∷ ns) [] dn dv outs an av hn hv en ev same ln lv ho
      few =
    absurd (omega arith)
unnamed_from-without_name (suc k) args result (n ∷ ns) (v ∷ vs) dn dv outs an av hn hv en ev same ln
      lv ho few =
    let r = Holds-Round args.names an dn n ns hn en in
    let r' =
      subst (λ j. Round args.args_data j v) (sym same)
        (Holds-Round args.args_data av dv v vs hv ev) in
    let out = if n == sn_nil then v ∷ [] else [] in
    rw (r.got, r'.got)
      (Returns-bind
        (push_if-Holds (n == sn_nil) v ho
          (omega (arith, hv.small, ap length ev, length-append dv (v ∷ vs))))
        (λ b hb.
          rw (next_index dn n, ← append_assoc outs out (without_name ns vs))
            (unnamed_from-without_name k args b ns vs (dn ++ n ∷ []) (dv ++ v ∷ []) (outs ++ out) an
              av hn hv (next_split dn n ns en) (next_split dv v vs ev)
              (omega (arith, length-append dn (n ∷ []), length-append dv (v ∷ []))) (omega arith)
              (omega arith) hb
              (omega (arith, kept_length (n == sn_nil) v outs, length-append dv (v ∷ []))))))

-- If the names and the values are as many, `arguments_unnamed` returns an array of the values whose name
-- is nil, in order.
pub arguments_unnamed-without_name :
    (args : Arguments) (ns vs : List Word)
    → Holds args.names ns
    → Holds args.args_data vs
    → length ns ≡ length vs
    → Returns (λ r. Holds r (without_name ns vs)) (arguments_unnamed arguments_type args)
unfolding arguments_unnamed
arguments_unnamed-without_name args ns vs hn hv same =
    unnamed_from-without_name args.args_data.size args (create_array_with_size args.args_data.size)
      ns vs [] [] [] ns vs hn hv refl refl refl (omega (arith, hv.size_eq))
      (omega (arith, hv.size_eq)) (create_array_with_size-Holds args.args_data.size) (omega arith)

-- `arguments_detect` and `arguments_map_pairs`
module _ {ℓ} {S : Type ℓ} (call : Word → S → List Word → Result (Word × S))
    (self : S → Arguments) where
  unfoldable pub arguments_detect : ObjectType → List Word → ℕ → S → Result (Word × S)
  arguments_detect self_type args n s = do
    require_args 1 args
    assert (is_arguments_type self_type)
    detect_from (call (arg args 0)) (λ t. (self t).args_data) n s 0

  -- The loop of `arguments_map_pairs`
  unfoldable pub map_pairs_from : Word → ℕ → S → Array → ℕ → Result (Array × S)
  map_pairs_from closure zero s result i = trap
  map_pairs_from closure (suc n) s result i =
      if ltb i (self s).names.size
      then (do
        name ← array_get (self s).names (pos i)
        val ← array_get (self s).args_data (pos i)
        if name == sn_nil then map_pairs_from closure n s result (i + 1) else (do
          (x, t) ← call closure s (name ∷ val ∷ [])
          (w, b) ← array_push result x
          map_pairs_from closure n t b (i + 1)))
      else ok (result, s)

  unfoldable pub arguments_map_pairs : ObjectType → List Word → ℕ → S → Result (Array × S)
  arguments_map_pairs self_type args n s = do
    require_args 1 args
    assert (is_arguments_type self_type)
    map_pairs_from (arg args 0) n s (create_array_with_size (self s).names.size) 0
