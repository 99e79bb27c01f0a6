-- ===== src/Codegen/Nodes/Calls.antt =====
-- snow/codegen-x86_64.c: SN_AST_CALL.
use snow.Base.{Option, [], none, pos, some, ℕ, ◌∷◌}
use snow.Codegen.{M, free_tmp, reserve_tmp, temporary, ◌>>=◌, ◌>>◌}
use snow.Codegen.Ops.{
  Target, arguments_push, arguments_push_named, call_of, call_with_args, codes,
  create_arguments_with_size, get_member_for_method_call, ins, mov, mov_id, mov_rev, xor,
}
use snow.Operands.{rax, rdi, rdx, rsi}

-- What is called: a member of what the step leaves in RAX, or what the step leaves there itself.
pub data Called : Type 0 where
  member_of : M (Unit {0}) → ℕ → Called
  closure : M (Unit {0}) → Called

module _ (target : Target) where
  unfoldable pub compile_called : (tmp_self tmp_function : ℕ) → Called → M (Unit {0})
  compile_called tmp_self tmp_function (member_of self name) = do
    self
    codes target (
        ins (mov rax (temporary tmp_self))
        ∷ ins (mov rax rdi)
        ∷ ins (mov_id (pos name) rsi)
        ∷ call_of get_member_for_method_call
        ∷ ins (mov rax (temporary tmp_function))
        ∷ [])
  compile_called tmp_self tmp_function (closure func) = do
    codes target (ins (xor rax rax) ∷ ins (mov rax (temporary tmp_self)) ∷ [])
    func
    codes target (ins (mov rax (temporary tmp_function)) ∷ [])

  -- An argument with a name, and one without.
  unfoldable pub push_named : (tmp_args : ℕ) → ℕ → M (Unit {0}) → M (Unit {0})
  push_named tmp_args name value = do
    value
    codes target (
        ins (mov_id (pos name) rsi)
        ∷ ins (mov rax rdx)
        ∷ ins (mov_rev rdi (temporary tmp_args))
        ∷ call_of arguments_push_named
        ∷ [])

  unfoldable pub push_unnamed : (tmp_args : ℕ) → M (Unit {0}) → M (Unit {0})
  push_unnamed tmp_args value = do
    value
    codes target
        (ins (mov rax rsi) ∷ ins (mov_rev rdi (temporary tmp_args)) ∷ call_of arguments_push ∷ [])

  -- The number of the arguments and the step that pushes them; none where the sequence is NULL.
  unfoldable pub compile_arguments : (tmp_args : ℕ) → Option (ℕ × (ℕ → M (Unit {0}))) → M (Unit {0})
  compile_arguments tmp_args (some (num_args, pushes)) = do
    codes target (
        ins (mov_id (pos num_args) rdi)
        ∷ call_of create_arguments_with_size
        ∷ ins (mov rax (temporary tmp_args))
        ∷ [])
    pushes tmp_args
    codes target (ins (mov_rev rdx (temporary tmp_args)) ∷ [])
  compile_arguments tmp_args none =
      codes target (ins (xor rdx rdx) ∷ ins (mov rax (temporary tmp_args)) ∷ [])

  unfoldable pub compile_call_node : Called → Option (ℕ × (ℕ → M (Unit {0}))) → M (Unit {0})
  compile_call_node called arguments = do
    tmp_self ← reserve_tmp
    tmp_function ← reserve_tmp
    compile_called tmp_self tmp_function called
    tmp_args ← reserve_tmp
    compile_arguments tmp_args arguments
    codes target (
        ins (mov_rev rdi (temporary tmp_self))
        ∷ ins (mov_rev rsi (temporary tmp_function))
        ∷ call_of call_with_args
        ∷ [])
    free_tmp tmp_args
    free_tmp tmp_self
    free_tmp tmp_function
