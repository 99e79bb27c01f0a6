-- ===== src/Codegen/Tests.antt =====
-- Tests of the code generator.
use snow.Base.{
  Result, [], arith, false, fault, if◌then◌else◌, length, none, ok, refl, some, thrown, trap, true,
  ℕ, ◌-ℤ◌, ◌<◌, ◌==◌, ◌↔◌, ◌∷◌, ◌≡◌, ◌≢◌,
}
use snow.Codegen.{
  Cgx, continue_with, create_codegen, free_tmp, reserve_from, reserve_tmp, ◌>>=◌, ◌>>◌,
}
use snow.Codegen.Compile.{
  compile_frame, compile_node, compile_nodes, compile_root, link_all, link_returns, link_stack_size,
  name_arguments, reserve_stack, stack_size,
}
use snow.Codegen.Ops.{
  Target, asm, asms, bind, codes, compile_call, inlined_eval_truth, j, jmp, link, on_buffer,
}
use snow.Codegen.Slots.Root.{compile_root-trap, fresh}
use snow.Codegen.Slots.Rules.{After, Lost}
use snow.Codegen.Slots.Tree.{compile_node-kept, xor_slots, xor_slots_all}
use snow.Codegen.Tree.{Node, Nodes, and_node, and_then, literal, none_left, self_node, xor_node}
use snow.Function.{create_function_description}
use snow.Asm.{
  asm_bind, asm_call, asm_j, asm_jmp, asm_label, asm_link, asm_mov_id, asm_pop, asm_push, cond_code,
  disp_bytes, emit, emit_disp, emit_imm, emit_instr, emit_modrm, emit_operands, emit_rex, emit_word,
  instr_xi, int32_bytes, mod_for_operand, mod_of_size, mode_bits, rex_for_operands, rex_for_reg,
  rex_for_rm,
}
use snow.LinkBuffer.{
  append_byte, init_linkbuffer, linkbuffer_modify, linkbuffer_push, linkbuffer_size, modify_from,
  pages_size, patch, push_in,
}
use snow.Codegen.Nodes.{compile_literal, compile_self}
use snow.Codegen.Nodes.Branches.{compile_and, compile_xor}
use snow.Value.{Word, eval_truth, is_object}
use snow.Codegen.Machine.{Machine, run}
use snow.Codegen.Machine.Truth.{inlined_eval_truth-truth, truth_of}
use snow.LinkBuffer.Contents.{contents}

abbrev target : Target
target = record {
  address = λ f. 4096;
  array_a = 16;
  array_size = 8;
  array_data = 0;
  context_self = 32;
  context_locals = 48;
  context_function = 24;
  handler_state = 8;
  handler_exception = 160;
  handler_previous = 0;
  debug = false;
  symbol_it = 1;
  symbol_exception = 2;
  symbol_current = 3;
}

-- `(7 xor 9) and self`
abbrev xor_and : Node
xor_and = and_node (xor_node (literal 7) (literal 9)) self_node

abbrev body : Nodes
body = and_then xor_and none_left

abbrev start : Cgx
start = create_codegen create_function_description [] []

abbrev state_of : Result (Unit {0} × Cgx) → Cgx
state_of (ok (_, s)) = s
state_of trap = start
state_of fault = start
state_of thrown = start

abbrev finished : Cgx
finished = state_of (compile_frame target none (compile_nodes target body) start)

compile_node-kept_example :
    After (λ _ s'. Lost [] (xor_slots xor_and) s') (compile_node target xor_and start)
compile_node-kept_example =
    compile_node-kept target xor_and [] start (fresh create_function_description [] [])

-- RDI holds the integer 4.
abbrev four : ℕ → Word
four = λ r. if r == 7 then 9 else 1

inlined_eval_truth-truth_example :
    (s' : Cgx) × (inlined_eval_truth (record start { buffer = init_linkbuffer 1024 }) ≡ ok (tt, s'))
    × (m : Machine) × (run 11
          (contents s'.buffer)
          (record { pc = 0; regs = four; zero_flag = true })
        ≡ some m)
    × (m.pc ≡ length (contents s'.buffer))
    × (m.regs 7 ≡ 9)
    × (m.regs 0 ≡ 9)
    × ((m.regs 0 ≡ 0) ↔ (eval_truth 9 ≡ false))
inlined_eval_truth-truth_example = inlined_eval_truth-truth start four true (omega arith)

-- The integers 1 and 4 are both true, and RAX differs.
truth_differs : truth_of 3 ≢ truth_of 9
truth_differs = cc

finished-returned :
    (compile_frame target none (compile_nodes target body) start ≡ ok (tt, finished))
    × (finished.tmp_freelist ≡ some (0 ∷ []))
unfolding compile_frame compile_node create_codegen ◌>>◌ asms on_buffer asm asm_push emit_rex
    rex_for_rm emit linkbuffer_push push_in append_byte emit_instr emit_imm reserve_stack instr_xi
    name_arguments asm_bind asm_call asm_label asm_link asm_mov_id asm_pop disp_bytes emit_disp
    emit_modrm emit_operands emit_word int32_bytes mod_for_operand mod_of_size mode_bits
    rex_for_operands rex_for_reg ◌-ℤ◌ link_all link_returns link_stack_size stack_size bind link
    continue_with ◌>>=◌ linkbuffer_modify linkbuffer_size modify_from pages_size patch codes
    compile_call inlined_eval_truth j jmp asm_j asm_jmp cond_code compile_literal compile_self
    compile_and compile_xor reserve_tmp reserve_from free_tmp is_object
finished-returned = (refl, refl)

compile_root-trap_example :
    (compile_root target none (compile_nodes target body) start ≡ trap)
    ↔ (0 < xor_slots_all body) × (finished.tmp_freelist ≢ none)
compile_root-trap_example =
    compile_root-trap target none body create_function_description [] [] finished
      finished-returned.0

-- This function cannot be compiled.
xor_and-trap : compile_root target none (compile_nodes target body) start ≡ trap
unfolding xor_slots
xor_and-trap =
    (compile_root-trap target none body create_function_description [] [] finished
        finished-returned.0).1
      (omega arith, λ e. cc (finished-returned.1))
