-- ===== src/Codegen/Nodes.antt =====
-- snow/codegen-x86_64.c: what `codegen_compile_node` does at each type of node, given the steps that
-- compile the children.
pub mod Branches
pub mod Calls
pub mod Try
use snow.Asm.{LabelRef}
use snow.Base.{
  Bool, List, Option, [], false, if◌then◌else◌, none, ok, pos, some, true, ℕ, ◌++◌, ◌∷◌,
}
use snow.Codegen.{
  M, constant, description, free_tmp, nothing, reserve_tmp, store_add, temporary,
  variable_reference, ◌>>=◌, ◌>>◌,
}
use snow.Codegen.Ops.{
  Line, Target, array_get, array_set, call_of, cmp, codes, create_function_from_description,
  function_declared_in_context, get_member_with_fallback, get_referenced_variable,
  get_unspecified_local_from_context, ins, jmp, mov, mov_id, mov_rev, set_global_from_context,
  set_member, set_object_assigned, set_referenced_variable, snow_eval_truth, store_get, xor,
}
use snow.Function.{FunctionDescription, define_local, get_local_index}
use snow.Value.{Word, is_object, sn_nil}
use snow.Operands.{make_address, r13, rax, rbx, rcx, rdi, rdx, rsi}

-- A child that may be NULL.
abbrev pub optional : Option (M (Unit {0})) → M (Unit {0})
optional none = nothing
optional (some m) = m

unfoldable pub local_index : ℕ → M (Option ℕ)
local_index name s = ok (get_local_index s.result name, s)

unfoldable pub define : ℕ → M ℕ
define name s = let (n, desc) = define_local s.result name in ok (n, record s { result = desc })

-- `cgx->base.parent == NULL`
unfoldable pub is_global : M Bool
is_global s = elim s.parents [ [] ↦ ok (true, s) | _ ∷ _ ↦ ok (false, s) ]

unfoldable pub add_return : LabelRef → M (Unit {0})
add_return ref s = ok (tt, record s { returns = s.returns ++ ref ∷ [] })

-- The truth of RAX, and the comparison of it with zero.
abbrev pub truth : List Line
truth = ins (mov rax rdi) ∷ call_of snow_eval_truth ∷ []

abbrev pub test_truth : List Line
test_truth =
    ins (mov rax rdi) ∷ call_of snow_eval_truth ∷ ins (xor rcx rcx) ∷ ins (cmp rax rcx) ∷ []

module _ (target : Target) where
  open target use {context_function, context_locals, context_self}

  -- SN_AST_LITERAL
  unfoldable pub compile_literal : Word → M (Unit {0})
  compile_literal v =
      if is_object v
      then (do
        key ← store_add (constant v)
        codes target (ins (mov_id (pos key) rdi) ∷ call_of store_get ∷ []))
      else codes target (ins (mov_id (pos v) rax) ∷ [])

  -- SN_AST_FUNCTION, behind the compilation of its description
  unfoldable pub compile_closure : FunctionDescription → M (Unit {0})
  compile_closure desc = do
    key ← store_add (description desc)
    codes target (
        ins (mov_id (pos key) rdi)
        ∷ call_of store_get
        ∷ ins (mov rax rdi)
        ∷ call_of create_function_from_description
        ∷ ins (mov rax rbx)
        ∷ ins (mov rax rdi)
        ∷ ins (mov r13 rsi)
        ∷ call_of function_declared_in_context
        ∷ ins (mov rbx rax)
        ∷ [])

  -- SN_AST_RETURN
  unfoldable pub compile_return : Option (M (Unit {0})) → M (Unit {0})
  compile_return none = do
    codes target (ins (mov_id (pos sn_nil) rax) ∷ [])
    ref ← jmp
    add_return ref
  compile_return (some value) = do value; ref ← jmp; add_return ref

  -- SN_AST_SELF
  unfoldable pub compile_self : M (Unit {0})
  compile_self = codes target (ins (mov_rev rax (make_address r13 (pos context_self))) ∷ [])

  -- SN_AST_CURRENT_SCOPE
  unfoldable pub compile_current_scope : M (Unit {0})
  compile_current_scope = codes target (ins (mov r13 rax) ∷ [])

  abbrev load_locals : ℕ → List Line
  load_locals n =
      ins (mov_rev rdi (make_address r13 (pos context_locals))) ∷ ins (mov_id (pos n) rsi) ∷ []

  abbrev load_function : ℕ → List Line
  load_function n =
      ins (mov_rev rdi (make_address r13 (pos context_function))) ∷ ins (mov_id (pos n) rsi) ∷ []

  -- SN_AST_LOCAL that is not in this scope
  unfoldable pub compile_outer_local : ℕ → Option ℕ → M (Unit {0})
  compile_outer_local name (some n) =
      codes target (load_function n ++ call_of get_referenced_variable ∷ [])
  compile_outer_local name none = codes target (
      ins (mov_id (pos name) rdi)
      ∷ ins (mov r13 rsi)
      ∷ call_of get_unspecified_local_from_context
      ∷ [])

  unfoldable pub compile_local_at : ℕ → Option ℕ → M (Unit {0})
  compile_local_at name (some n) = codes target (load_locals n ++ call_of array_get ∷ [])
  compile_local_at name none = do
    reference ← variable_reference name
    compile_outer_local name reference

  -- SN_AST_LOCAL
  unfoldable pub compile_local : ℕ → M (Unit {0})
  compile_local name = do idx ← local_index name; compile_local_at name idx

  abbrev store_local : ℕ → List Line
  store_local n = load_locals n ++ ins (mov rax rdx) ∷ call_of array_set ∷ []

  -- The assignment of a name that is in no scope: global where there is no enclosing function. A local is
  -- defined before its value is compiled.
  unfoldable pub assign_new : ℕ → M (Unit {0}) → Bool → M (Unit {0})
  assign_new name value false = do idx ← define name; value; codes target (store_local idx)
  assign_new name value true = do
    value
    codes target (
        ins (mov_id (pos name) rdi)
        ∷ ins (mov rax rsi)
        ∷ ins (mov r13 rdx)
        ∷ call_of set_global_from_context
        ∷ [])

  unfoldable pub assign_outer : ℕ → M (Unit {0}) → Option ℕ → M (Unit {0})
  assign_outer name value (some n) = do
    value
    codes target (load_function n ++ ins (mov rax rdx) ∷ call_of set_referenced_variable ∷ [])
  assign_outer name value none = do global ← is_global; assign_new name value global

  unfoldable pub assign_at : ℕ → M (Unit {0}) → Option ℕ → M (Unit {0})
  assign_at name value (some n) = do value; codes target (store_local n)
  assign_at name value none = do
    reference ← variable_reference name
    assign_outer name value reference

  -- SN_AST_LOCAL_ASSIGNMENT
  unfoldable pub compile_local_assignment : ℕ → M (Unit {0}) → M (Unit {0})
  compile_local_assignment name value = do
    idx ← local_index name
    assign_at name value idx
    codes target (
        ins (mov rax rdi)
        ∷ ins (mov_id (pos name) rsi)
        ∷ ins (xor rdx rdx)
        ∷ call_of set_object_assigned
        ∷ [])

  -- SN_AST_MEMBER
  unfoldable pub compile_member : M (Unit {0}) → ℕ → M (Unit {0})
  compile_member self name = do
    self
    codes target
        (ins (mov rax rdi) ∷ ins (mov_id (pos name) rsi) ∷ call_of get_member_with_fallback ∷ [])

  -- SN_AST_MEMBER_ASSIGNMENT
  unfoldable pub compile_member_assignment : M (Unit {0}) → ℕ → M (Unit {0}) → M (Unit {0})
  compile_member_assignment self name value = do
    tmp_self ← reserve_tmp
    self
    codes target (ins (mov rax (temporary tmp_self)) ∷ [])
    value
    codes target (
        ins (mov rax rdx)
        ∷ ins (mov_rev rdi (temporary tmp_self))
        ∷ ins (mov_id (pos name) rsi)
        ∷ call_of set_member
        ∷ ins (mov rax rdi)
        ∷ ins (mov_id (pos name) rsi)
        ∷ ins (mov_rev rdx (temporary tmp_self))
        ∷ call_of set_object_assigned
        ∷ [])
    free_tmp tmp_self
