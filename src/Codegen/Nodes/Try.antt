-- ===== src/Codegen/Nodes/Try.antt =====
-- snow/codegen-x86_64.c: SN_AST_TRY, with its catch node.
use snow.Asm.{Label, LabelRef, cc_not_zero, cc_zero}
use snow.Base.{List, Option, [], none, pos, some, ℕ, ◌++◌, ◌∷◌}
use snow.Codegen.{M, free_tmp, nothing, pure, reserve_tmp, temporary, ◌>>=◌, ◌>>◌}
use snow.Codegen.Ops.{
  Line, Target, add_id, bind, call_of, cmp, cmp_id, codes, create_exception_handler,
  current_exception_handler, ins, j, jmp, link, mov, mov_id, mov_rev, pop_exception_handler,
  push_exception_handler, save_execution_state, throw_exception, xor,
}
use snow.Codegen.Nodes.{
  compile_local, compile_local_assignment, compile_member, optional, test_truth,
}
use snow.Value.{sn_nil}
use snow.Operands.{make_address, r10, r11, rax, rcx, rdi}

-- The children of a catch node.
pub record CatchClause : Type 0 where
  pub parameter : Option ℕ
  pub condition : Option (M (Unit {0}))
  pub body : M (Unit {0})

abbrev pub link_optional : Option LabelRef → Label → M (Unit {0})
link_optional none label = nothing
link_optional (some ref) label = link ref label

module _ (target : Target) where
  open target use {
    handler_exception, handler_previous, handler_state, symbol_current, symbol_exception,
  }

  -- The registration of the handler in a temporary, and the test of what `snow_save_execution_state`
  -- returned.
  abbrev save_state : ℕ → List Line
  save_state handler =
      ins (mov_rev rdi (temporary handler))
      ∷ ins (add_id (pos handler_state) rdi)
      ∷ call_of save_execution_state
      ∷ ins (xor rcx rcx)
      ∷ ins (cmp rax rcx)
      ∷ []

  -- `<exception_to_propagate> = <handler>->exception`
  abbrev propagate : (handler exception_to_propagate : ℕ) → List Line
  propagate handler exception_to_propagate =
      ins (mov_rev r10 (temporary handler))
      ∷ ins (mov_rev r11 (make_address r10 (pos handler_exception)))
      ∷ ins (mov r11 (temporary exception_to_propagate))
      ∷ []

  -- `<identifier> = Exception.current`
  unfoldable pub assign_exception : Option ℕ → M (Unit {0})
  assign_exception none = nothing
  assign_exception (some identifier) =
      compile_local_assignment target identifier
        (compile_member target (compile_local target symbol_exception) symbol_current)

  -- The jump that is taken where the condition fails.
  unfoldable pub catch_condition : Option (M (Unit {0})) → M (Option LabelRef)
  catch_condition none = pure none
  catch_condition (some condition) = do
    condition
    codes target test_truth
    catch_condition_failed_jmp ← j cc_zero
    pure (some catch_condition_failed_jmp)

  -- Between the labels `catch` and `ensure`: the jump from the end of the catch body to `ensure`.
  unfoldable pub compile_catch :
      (return_value exception_handler exception_to_propagate : ℕ)
      → Option CatchClause
      → M (Option LabelRef)
  compile_catch return_value exception_handler exception_to_propagate none = do
    codes target (propagate exception_handler exception_to_propagate)
    pure none
  compile_catch return_value exception_handler exception_to_propagate (some clause) = do
    catch_exception_handler ← reserve_tmp
    codes target (
        call_of create_exception_handler
        ∷ ins (mov rax (temporary catch_exception_handler))
        ∷ ins (mov_rev r10 (temporary exception_handler))
        ∷ ins (mov_rev r11 (make_address r10 (pos handler_exception)))
        ∷ ins (mov r11 (make_address rax (pos handler_exception)))
        ∷ ins (mov_rev rdi (temporary catch_exception_handler))
        ∷ call_of push_exception_handler
        ∷ save_state catch_exception_handler)
    catch_catch_jmp ← j cc_not_zero
    assign_exception clause.parameter
    catch_condition_failed_jmp ← catch_condition clause.condition
    clause.body
    codes target (ins (mov rax (temporary return_value)) ∷ call_of pop_exception_handler ∷ [])
    inner_ensure_jmp ← jmp
    catch_catch ← bind
    codes target (
        propagate catch_exception_handler exception_to_propagate
        ++ call_of pop_exception_handler ∷ [])
    link catch_catch_jmp catch_catch
    link_optional catch_condition_failed_jmp catch_catch
    free_tmp catch_exception_handler
    pure (some inner_ensure_jmp)

  unfoldable pub compile_try :
      M (Unit {0}) → Option CatchClause → Option (M (Unit {0})) → M (Unit {0})
  compile_try body catch ensure_body = do
    return_value ← reserve_tmp
    exception_handler ← reserve_tmp
    exception_to_propagate ← reserve_tmp
    codes target (
        ins (mov_id (pos 0) (temporary exception_to_propagate))
        ∷ ins (mov_id (pos sn_nil) (temporary return_value))
        ∷ call_of create_exception_handler
        ∷ ins (mov rax (temporary exception_handler))
        ∷ ins (mov rax rdi)
        ∷ call_of push_exception_handler
        ∷ save_state exception_handler)
    catch_jmp ← j cc_not_zero
    body
    codes target (ins (mov rax (temporary return_value)) ∷ [])
    outer_ensure_jmp ← jmp
    catch_label ← bind
    inner_ensure_jmp ← compile_catch return_value exception_handler exception_to_propagate catch
    ensure ← bind
    codes target (
        ins (mov_rev rax (temporary exception_handler))
        ∷ ins (mov_rev rdi (make_address rax (pos handler_previous)))
        ∷ ins (mov_rev r11 (make_address rax (pos handler_exception)))
        ∷ ins (mov r11 (make_address rdi (pos handler_exception)))
        ∷ call_of pop_exception_handler
        ∷ [])
    optional ensure_body
    codes target
        (ins (mov_rev rdi (temporary exception_to_propagate)) ∷ ins (cmp_id (pos 0) rdi) ∷ [])
    skip_propagation_jmp ← j cc_zero
    codes target (call_of throw_exception ∷ [])
    skip_propagation ← bind
    codes target (
        call_of current_exception_handler
        ∷ ins (mov_id (pos 0) (make_address rax (pos handler_exception)))
        ∷ ins (mov_rev rax (temporary return_value))
        ∷ [])
    link catch_jmp catch_label
    link outer_ensure_jmp ensure
    link skip_propagation_jmp skip_propagation
    link_optional inner_ensure_jmp ensure
    free_tmp return_value
    free_tmp exception_handler
    free_tmp exception_to_propagate
