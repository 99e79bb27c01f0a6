-- ===== src/Codegen/Machine/Truth.antt =====
-- The code that is inlined for `snow_eval_truth` (snow/codegen-x86_64.c), run on the processor, against
-- the function of snow/snow.c.
use snow.Asm.Decode.{decode}
use snow.Base.{
  Bool, Bool-cases, List, [], ap, arith, false, if◌then◌else◌, inl, inr, length, ok, refl, some,
  true, ℕ, ◌%◌, ◌*◌, ◌+ℤ◌, ◌+◌, ◌-ℤ◌, ◌-◌, ◌/◌, ◌<◌, ◌==◌, ◌^◌, ◌↔◌, ◌∙◌, ◌∷◌, ◌≡◌,
}
use snow.Value.{Word, eval_truth}
use snow.LinkBuffer.Contents.{contents}
use snow.Codegen.Machine.{Machine, run, set_reg, step}
use snow.LinkBuffer.{
  Byte, append_byte, init_linkbuffer, linkbuffer_modify, linkbuffer_push, linkbuffer_size,
  modify_from, pages_size, patch, push_in,
}
use Prim.Native.Nat.{bit_and, bit_xor}
use snow.Codegen.{Cgx, continue_with, ◌>>=◌, ◌>>◌}
use snow.Codegen.Ops.{asm, asms, bind, inlined_eval_truth, j, link, on_buffer}
use snow.Asm.{
  asm_bind, asm_j, asm_label, asm_link, asm_mov_id, cond_code, disp_bytes, emit, emit_disp,
  emit_imm, emit_instr, emit_modrm, emit_operands, emit_rex, emit_word, int32_bytes,
  mod_for_operand, mode_bits, rex_for_operands, rex_for_reg, rex_for_rm,
}
use snow.Codegen.Machine.Bits.{bit_and_mask, bit_xor_self}

-- The bytes of the code.
abbrev pub truth_code : List Byte
truth_code =
    72 ∷ 137 ∷ 248 ∷ 72 ∷ 185 ∷ 249 ∷ 255 ∷ 255 ∷ 255 ∷ 255 ∷ 255 ∷ 255 ∷ 255 ∷ 72 ∷ 33 ∷ 200 ∷ 72
    ∷ 49 ∷ 201 ∷ 72 ∷ 57 ∷ 193 ∷ 15 ∷ 133 ∷ 25 ∷ 0 ∷ 0 ∷ 0 ∷ 72 ∷ 137 ∷ 248 ∷ 72 ∷ 185 ∷ 6 ∷ 0 ∷ 0
    ∷ 0 ∷ 0 ∷ 0 ∷ 0 ∷ 0 ∷ 72 ∷ 57 ∷ 193 ∷ 15 ∷ 132 ∷ 3 ∷ 0 ∷ 0 ∷ 0 ∷ 72 ∷ 49 ∷ 192 ∷ []

-- Behind the second test: the end of the code, or `xor %rax, %rax`.
abbrev after_second : (ℕ → Word) → Bool → Machine
after_second regs true = record { pc = 53; regs = regs; zero_flag = true }
after_second regs false = record {
  pc = 53;
  regs = set_reg regs 0 (bit_xor (regs 0) (regs 0));
  zero_flag = bit_xor (regs 0) (regs 0) == 0;
}

run_second :
    (regs : ℕ → Word) (flag : Bool)
    → run 2 truth_code (record { pc = 44; regs = regs; zero_flag = flag })
      ≡ some (after_second regs flag)
unfolding run step decode ◌+ℤ◌
run_second regs true = refl
run_second regs false = refl

abbrev second_regs : (ℕ → Word) → ℕ → Word
second_regs regs = set_reg (set_reg regs 0 (regs 7)) 1 6

abbrev after_first : (ℕ → Word) → Bool → Machine
after_first regs false = record { pc = 53; regs = regs; zero_flag = false }
after_first regs true = after_second (second_regs regs) (6 == regs 7)

run_first :
    (regs : ℕ → Word) (flag : Bool)
    → run 6 truth_code (record { pc = 22; regs = regs; zero_flag = flag })
      ≡ some (after_first regs flag)
unfolding run step decode ◌+ℤ◌
run_first regs false = refl
run_first regs true = run_second (second_regs regs) (6 == regs 7)

abbrev first_regs : (ℕ → Word) → ℕ → Word
first_regs regs =
    set_reg
      (set_reg (set_reg (set_reg regs 0 (regs 7)) 1 (2 ^ 64 - 7)) 0 (bit_and (regs 7) (2 ^ 64 - 7)))
      1 0

run_truth :
    (regs : ℕ → Word) (flag : Bool)
    → run 11 truth_code (record { pc = 0; regs = regs; zero_flag = flag })
      ≡ some (after_first (first_regs regs) (0 == bit_and (regs 7) (2 ^ 64 - 7)))
unfolding run step decode ◌+ℤ◌
run_truth regs flag = run_first (first_regs regs) (0 == bit_and (regs 7) (2 ^ 64 - 7))

-- What RAX holds in the end.
abbrev pub truth_of : Word → Word
truth_of v = let w : Word = v / 8 * 8 + v % 2 in if 0 == w then (if 6 == v then v else 0) else w

after_truth :
    (regs : ℕ → Word)
    → regs 7 < 2 ^ 64
    → (m : Machine) × (after_first (first_regs regs) (0 == bit_and (regs 7) (2 ^ 64 - 7)) ≡ m)
      × (m.pc ≡ 53)
      × (m.regs 7 ≡ regs 7)
      × (m.regs 0 ≡ truth_of (regs 7))
after_truth regs h =
    let w : Word = regs 7 / 8 * 8 + regs 7 % 2 in
    rw (bit_and_mask (regs 7) h) (elim (Bool-cases (0 == w)) [
      | inr n ↦ rw n (_, refl, refl, refl, refl)
      | inl z ↦ rw z (elim (Bool-cases (6 == regs 7)) [
        | inl t ↦ rw t (_, refl, refl, refl, refl)
        | inr t ↦ rw t (_, refl, refl, refl, bit_xor_self (regs 7))
      ])
    ])

truth_of-eval_truth : (v : Word) → (truth_of v ≡ 0) ↔ (eval_truth v ≡ false)
unfolding eval_truth
truth_of-eval_truth v = (λ h. ground arith, λ h. ground arith)

inlined-truth_code :
    (s : Cgx)
    → inlined_eval_truth (record s { buffer = init_linkbuffer 1024 })
      ≡ ok (tt, record s { buffer = record { page_size = 1024; pages = truth_code ∷ [] } })
unfolding inlined_eval_truth ◌>>◌ asms on_buffer asm emit_rex rex_for_rm emit linkbuffer_push
    push_in append_byte emit_instr emit_imm asm_bind asm_label asm_link asm_mov_id disp_bytes
    emit_disp emit_modrm emit_operands emit_word int32_bytes mod_for_operand mode_bits
    rex_for_operands rex_for_reg ◌-ℤ◌ bind link continue_with ◌>>=◌ linkbuffer_modify
    linkbuffer_size modify_from pages_size patch j asm_j cond_code
inlined-truth_code s = refl

-- The code that is inlined for `snow_eval_truth`, at the start of a buffer, run with a 64-bit value in
-- RDI, reaches its end, keeps RDI, and leaves in RAX the value without its second and third bit, or true if
-- the value is true, or 0; this is 0 exactly if `snow_eval_truth` of the value is false.
pub inlined_eval_truth-truth :
    (s : Cgx) (regs : ℕ → Word) (flag : Bool)
    → regs 7 < 2 ^ 64
    → (s' : Cgx) × (inlined_eval_truth (record s { buffer = init_linkbuffer 1024 }) ≡ ok (tt, s'))
      × (m : Machine) × (run 11
            (contents s'.buffer)
            (record { pc = 0; regs = regs; zero_flag = flag })
          ≡ some m)
      × (m.pc ≡ length (contents s'.buffer))
      × (m.regs 7 ≡ regs 7)
      × (m.regs 0 ≡ truth_of (regs 7))
      × ((m.regs 0 ≡ 0) ↔ (eval_truth (regs 7) ≡ false))
inlined_eval_truth-truth s regs flag h =
    let (m, e, end, kept, result) = after_truth regs h in
    (
      record s { buffer = record { page_size = 1024; pages = truth_code ∷ [] } },
      inlined-truth_code s,
      m,
      run_truth regs flag ∙ ap some e,
      end,
      kept,
      result,
      rw result (truth_of-eval_truth (regs 7)),
    )
