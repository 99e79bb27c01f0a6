-- ===== src/Asm/Tests.antt =====
-- Tests of the assembler.
use snow.Asm.{
  asm_link, disp_bytes, emit_instr, int32_bytes, mod_for_operand, mode_bits, rex_for_operands,
}
use snow.Asm.Decode.{ReadAs, at_memory, decode, emit_instr-ReadAs, meaning, read_disp32}
use snow.Asm.Encode.{instr_bytes}
use snow.Asm.Link.{asm_link-target}
use snow.Base.{List, Returns, [], arith, negsuc, ok, pos, refl, some, ℤ, ◌++◌, ◌+ℤ◌, ◌∷◌, ◌≡◌, ◌≢◌}
use snow.LinkBuffer.{Byte, LinkBuffer, init_linkbuffer}
use snow.LinkBuffer.Contents.{IsValid}
use snow.Operands.{make_address, r13, rax, rbp}

abbrev empty_buffer : LinkBuffer
empty_buffer = init_linkbuffer 1024

empty_buffer-IsValid : IsValid empty_buffer
empty_buffer-IsValid = record { has_room = omega arith; chain = tt }

emit_instr-ReadAs_example :
    Returns
      (ReadAs empty_buffer (meaning 137 rax (make_address rbp (negsuc 7))))
      (emit_instr empty_buffer 137 rax (make_address rbp (negsuc 7)))
emit_instr-ReadAs_example =
    emit_instr-ReadAs empty_buffer 137 rax (make_address rbp (negsuc 7)) empty_buffer-IsValid refl
      (omega arith) (omega arith) (omega arith)

-- `mov %rax, -8(%rbp)` has a displacement of four bytes.
mov_to_stack :
    instr_bytes 137 rax (make_address rbp (negsuc 7)) ≡ 72 ∷ 137 ∷ 133 ∷ 248 ∷ 255 ∷ 255 ∷ 255 ∷ []
unfolding rex_for_operands mode_bits mod_for_operand disp_bytes
mov_to_stack = refl

mov_to_stack_read :
    decode (72 ∷ 137 ∷ 133 ∷ 248 ∷ 255 ∷ 255 ∷ 255 ∷ [])
    ≡ some (record { opcode = 137; reg = 0; rm = at_memory 5 (negsuc 7) }, [])
unfolding decode
mov_to_stack_read = refl

-- R13 without displacement is read as relative to the next instruction.
r13_relative :
    (a b c d : Byte)
    → meaning 139 rax (make_address r13 (pos 0)) (a ∷ b ∷ c ∷ d ∷ [])
      ≢ some (record { opcode = 139; reg = 0; rm = at_memory 13 (pos 0) }, a ∷ b ∷ c ∷ d ∷ [])
r13_relative a b c d h = cc

asm_link-target_example :
    (d : ℤ) × (asm_link
        (record { page_size = 1024; pages = (233 ∷ 0 ∷ 0 ∷ 0 ∷ 0 ∷ 144 ∷ 195 ∷ []) ∷ [] })
        (record { offset = 1 })
        (record { offset = pos 6 })
      ≡ ok (record { page_size = 1024; pages = (233 ∷ (int32_bytes d ++ 144 ∷ 195 ∷ [])) ∷ [] }))
    × ((rest : List Byte) → read_disp32 (int32_bytes d ++ rest) ≡ some (d, rest))
    × (pos 5 +ℤ d ≡ pos 6)
asm_link-target_example =
    asm_link-target 1024 [] (233 ∷ []) (0 ∷ 0 ∷ 0 ∷ 0 ∷ []) (144 ∷ 195 ∷ []) [] 6 refl (omega arith)
      (omega arith)
