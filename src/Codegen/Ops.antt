-- ===== src/Codegen/Ops.antt =====
-- snow/codegen-x86_64.c: the steps of which the code of a node is made (`ASM`, `CALL`, labels), with
-- `codegen_compile_call_with_inlining`.
use snow.Asm.{
  Cond, Label, LabelRef, asm_bind, asm_call, asm_imul_i, asm_j, asm_jmp, asm_label, asm_link,
  asm_mov_id, asm_pop, asm_push, cc_greater_equal, cc_not_zero, cc_zero, emit, emit_instr, instr_xi,
}
use snow.Base.{
  Bool, List, Result, [], fault, if◌then◌else◌, ok, pos, thrown, trap, ℕ, ℤ, ◌-◌, ◌^◌, ◌∷◌,
}
use snow.Codegen.{Cgx, M, nothing, ◌>>=◌, ◌>>◌}
use snow.LinkBuffer.{LinkBuffer}
use snow.Value.{Word, sn_true}
use snow.Operands.{SnOp, make_address, r10, r8, r9, rax, rcx, rdi, rsi}

-- The functions of the runtime that compiled code calls.
pub data Callee : Type 0 where
  snow_eval_truth array_get array_set store_get : Callee
  create_function_from_description function_declared_in_context : Callee
  get_referenced_variable set_referenced_variable : Callee
  get_unspecified_local_from_context set_global_from_context set_object_assigned : Callee
  get_member_with_fallback set_member get_member_for_method_call : Callee
  create_arguments_with_size arguments_push arguments_push_named call_with_args : Callee
  create_exception_handler push_exception_handler pop_exception_handler : Callee
  save_execution_state throw_exception current_exception_handler : Callee
  invoke_parallel_threads invoke_parallel_forks : Callee

-- What the C compiler and linker choose: the address of each function, the offsets of fields (`offsetof`),
-- whether DEBUG is defined; and the symbols that the generator looks up.
pub record Target : Type 0 where
  pub address : Callee → Word
  pub array_a : ℕ
  pub array_size : ℕ
  pub array_data : ℕ
  pub context_self : ℕ
  pub context_locals : ℕ
  pub context_function : ℕ
  pub handler_state : ℕ
  pub handler_exception : ℕ
  pub handler_previous : ℕ
  pub debug : Bool
  pub symbol_it : ℕ
  pub symbol_exception : ℕ
  pub symbol_current : ℕ

-- The instructions that the generator uses.
pub data Instr : Type 0 where
  mov mov_rev lea add asm_and xor cmp : SnOp → SnOp → Instr
  mov_id add_id cmp_id sub_id : ℤ → SnOp → Instr
  imul_i : SnOp → SnOp → ℤ → Instr
  call push pop : SnOp → Instr
  leave ret : Instr

-- The buffer of an assembler function that also returns an offset, which the generator does not use.
abbrev buffer_of : Result (ℕ × LinkBuffer) → Result LinkBuffer
buffer_of (ok (_, lb)) = ok lb
buffer_of trap = trap
buffer_of fault = fault
buffer_of thrown = thrown

unfoldable pub asm : Instr → LinkBuffer → Result LinkBuffer
asm (mov reg rm) lb = emit_instr lb 137 reg rm
asm (mov_rev reg rm) lb = emit_instr lb 139 reg rm
asm (lea reg rm) lb = emit_instr lb 141 reg rm
asm (add reg rm) lb = emit_instr lb 1 reg rm
asm (asm_and reg rm) lb = emit_instr lb 33 reg rm
asm (xor reg rm) lb = emit_instr lb 49 reg rm
asm (cmp reg rm) lb = emit_instr lb 57 reg rm
asm (mov_id imm rm) lb = buffer_of (asm_mov_id lb imm rm)
asm (add_id imm rm) lb = buffer_of (instr_xi 129 0 lb imm rm)
asm (cmp_id imm rm) lb = buffer_of (instr_xi 129 7 lb imm rm)
asm (sub_id imm rm) lb = buffer_of (instr_xi 129 5 lb imm rm)
asm (imul_i reg rm imm) lb = asm_imul_i lb reg rm imm
asm (call rm) lb = asm_call lb rm
asm (push reg) lb = asm_push lb reg
asm (pop reg) lb = asm_pop lb reg
asm leave lb = emit lb 201
asm ret lb = emit lb 195

-- A function of the assembler, on the generator's buffer.
abbrev pub with_buffer : Cgx → Result LinkBuffer → Result (Unit {0} × Cgx)
with_buffer s (ok lb) = ok (tt, record s { buffer = lb })
with_buffer s trap = trap
with_buffer s fault = fault
with_buffer s thrown = thrown

unfoldable pub on_buffer : (LinkBuffer → Result LinkBuffer) → M (Unit {0})
on_buffer f s = with_buffer s (f s.buffer)

abbrev pub with_ref : Cgx → Result (LabelRef × LinkBuffer) → Result (LabelRef × Cgx)
with_ref s (ok (ref, lb)) = ok (ref, record s { buffer = lb })
with_ref s trap = trap
with_ref s fault = fault
with_ref s thrown = thrown

-- `ASM(j, cc, &label)` and `ASM(jmp, &label)`; the label is given to `link`.
unfoldable pub j : Cond → M LabelRef
j cc s = with_ref s (asm_j s.buffer cc)

unfoldable pub jmp : M LabelRef
jmp s = with_ref s (asm_jmp s.buffer)

abbrev pub with_label : Cgx → Result Label → Result (Label × Cgx)
with_label s (ok l) = ok (l, s)
with_label s trap = trap
with_label s fault = fault
with_label s thrown = thrown

-- `ASM(bind, &label)` of a label that was made by `ASM_LABEL`.
unfoldable pub bind : M Label
bind s = with_label s (asm_bind s.buffer asm_label)

unfoldable pub link : LabelRef → Label → M (Unit {0})
link ref label = on_buffer (λ lb. asm_link lb ref label)

-- Instructions in order.
unfoldable pub asms : List Instr → M (Unit {0})
asms [] = nothing
asms (i ∷ is) = on_buffer (asm i) >> asms is

-- The code of `snow_eval_truth`, inlined: the mask is ~0x6.
unfoldable pub inlined_eval_truth : M (Unit {0})
inlined_eval_truth = do
  asms (
      mov rdi rax
      ∷ mov_id (pos (2 ^ 64 - 7)) rcx
      ∷ asm_and rcx rax
      ∷ xor rcx rcx
      ∷ cmp rax rcx
      ∷ [])
  was_true_jmp1 ← j cc_not_zero
  asms (mov rdi rax ∷ mov_id (pos sn_true) rcx ∷ cmp rax rcx ∷ [])
  was_true_jmp2 ← j cc_zero
  asms (xor rax rax ∷ [])
  was_true ← bind
  link was_true_jmp1 was_true
  link was_true_jmp2 was_true

-- A line of the generator: `ASM(...)` or `CALL(...)`.
pub data Line : Type 0 where
  ins : Instr → Line
  call_of : Callee → Line

module _ (target : Target) where
  open target use {address, array_a, array_data, array_size, debug}

  -- The load of the element, which the debug build puts behind a test.
  abbrev load_element : List Instr
  load_element =
      mov_rev rax (make_address rdi (pos array_data))
      ∷ imul_i rsi rsi (pos 8)
      ∷ add rsi rax
      ∷ mov_rev rax (make_address rax (pos 0))
      ∷ []

  unfoldable pub inlined_array_get : M (Unit {0})
  inlined_array_get = do
    asms (lea rdi (make_address rdi (pos array_a)) ∷ [])
    if debug
        then (do
          asms (
              xor rax rax
              ∷ mov_rev r8 (make_address rdi (pos array_size))
              ∷ mov_id (pos (2 ^ 32 - 1)) r9
              ∷ asm_and r9 r8
              ∷ cmp r8 rsi
              ∷ [])
          out_of_bounds_jmp ← j cc_greater_equal
          asms load_element
          out_of_bounds ← bind
          link out_of_bounds_jmp out_of_bounds)
        else asms load_element

  -- `CALL(func)`
  unfoldable pub compile_call : Callee → M (Unit {0})
  compile_call snow_eval_truth = inlined_eval_truth
  compile_call array_get = inlined_array_get
  compile_call callee = asms (mov_id (pos (address callee)) r10 ∷ call r10 ∷ [])

  unfoldable pub codes : List Line → M (Unit {0})
  codes [] = nothing
  codes (ins instr ∷ lines) = on_buffer (asm instr) >> codes lines
  codes (call_of callee ∷ lines) = compile_call callee >> codes lines
