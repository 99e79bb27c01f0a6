-- ===== src/Codegen/Nodes/Branches.antt =====
-- snow/codegen-x86_64.c: the nodes with jumps: conditions, loops and the logical operators.
use snow.Asm.{cc_not_zero, cc_zero}
use snow.Base.{Option, [], pos, ◌∷◌}
use snow.Codegen.{M, free_tmp, reserve_tmp, temporary, ◌>>=◌, ◌>>◌}
use snow.Codegen.Ops.{
  Target, bind, call_of, cmp, cmp_id, codes, ins, j, jmp, link, mov, mov_id, mov_rev,
  snow_eval_truth,
}
use snow.Codegen.Nodes.{optional, test_truth}
use snow.Value.{sn_false, sn_true}
use snow.Operands.{rax, rbx, rdi}

module _ (target : Target) where
  -- SN_AST_IF_ELSE
  unfoldable pub compile_if_else :
      M (Unit {0}) → Option (M (Unit {0})) → Option (M (Unit {0})) → M (Unit {0})
  compile_if_else condition body else_body = do
    condition
    codes target test_truth
    false_jump ← j cc_zero
    optional body
    after_jump ← jmp
    if_false ← bind
    optional else_body
    after ← bind
    link false_jump if_false
    link after_jump after

  -- SN_AST_LOOP
  unfoldable pub compile_loop : M (Unit {0}) → M (Unit {0}) → M (Unit {0})
  compile_loop while_true body = do
    cond ← bind
    while_true
    codes target test_truth
    after_jmp ← j cc_zero
    body
    cond_jmp ← jmp
    after ← bind
    link after_jmp after
    link cond_jmp cond

  -- SN_AST_AND
  unfoldable pub compile_and : M (Unit {0}) → M (Unit {0}) → M (Unit {0})
  compile_and left right = do
    left_save ← reserve_tmp
    left
    codes target (
        ins (mov rax (temporary left_save))
        ∷ ins (mov rax rdi)
        ∷ call_of snow_eval_truth
        ∷ ins (cmp_id (pos 0) rax)
        ∷ ins (mov_rev rax (temporary left_save))
        ∷ [])
    free_tmp left_save
    jump_false ← j cc_zero
    right
    was_false ← bind
    link jump_false was_false

  -- SN_AST_OR
  unfoldable pub compile_or : M (Unit {0}) → M (Unit {0}) → M (Unit {0})
  compile_or left right = do
    left_save ← reserve_tmp
    left
    codes target (
        ins (mov rax (temporary left_save))
        ∷ ins (mov rax rdi)
        ∷ call_of snow_eval_truth
        ∷ ins (cmp_id (pos 0) rax)
        ∷ ins (mov_rev rax (temporary left_save))
        ∷ [])
    free_tmp left_save
    jump_true ← j cc_not_zero
    right
    was_true ← bind
    link jump_true was_true

  -- SN_AST_XOR: the two temporaries are not freed.
  unfoldable pub compile_xor : M (Unit {0}) → M (Unit {0}) → M (Unit {0})
  compile_xor left right = do
    left_save ← reserve_tmp
    right_save ← reserve_tmp
    left
    codes target (ins (mov rax (temporary left_save)) ∷ [])
    right
    codes target (
        ins (mov rax (temporary right_save))
        ∷ ins (mov rax rdi)
        ∷ call_of snow_eval_truth
        ∷ ins (mov rax rbx)
        ∷ ins (mov_rev rdi (temporary left_save))
        ∷ call_of snow_eval_truth
        ∷ ins (cmp rax rbx)
        ∷ [])
    both_ref ← j cc_zero
    codes target (ins (cmp_id (pos 0) rax) ∷ [])
    left_ref ← j cc_not_zero
    codes target (ins (mov_rev rax (temporary right_save)) ∷ [])
    done_ref1 ← jmp
    left_true ← bind
    codes target (ins (mov_rev rax (temporary left_save)) ∷ [])
    done_ref2 ← jmp
    both_true_or_false ← bind
    codes target (ins (mov_id (pos sn_false) rax) ∷ [])
    done ← bind
    link both_ref both_true_or_false
    link left_ref left_true
    link done_ref1 done
    link done_ref2 done

  -- SN_AST_NOT
  unfoldable pub compile_not : M (Unit {0}) → M (Unit {0})
  compile_not expr = do
    expr
    codes target test_truth
    false_jump ← j cc_zero
    codes target (ins (mov_id (pos sn_false) rax) ∷ [])
    after_jump ← jmp
    if_false ← bind
    codes target (ins (mov_id (pos sn_true) rax) ∷ [])
    after ← bind
    link false_jump if_false
    link after_jump after
