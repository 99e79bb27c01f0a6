-- ===== src/Asm.antt =====
-- snow/asm-x86_64.h and snow/asm.h: the assembler. Each instruction pushes its bytes to a link buffer,
-- which may fault; a failed ASSERT is a trap. Offsets in the code are below 2^31, so the `int32_t` of a
-- label is the buffer's size.
pub mod Decode
pub mod Encode
pub mod Link
mod Tests
use snow.Base.{
  List, Result, [], assert, if◌then◌else◌, ltb_ℤ, negsuc, not, ok, pos, suc, zero, ℕ, ℤ, ◌%◌, ◌&&◌,
  ◌*◌, ◌+◌, ◌-ℤ◌, ◌/◌, ◌==◌, ◌>>=◌, ◌>>◌, ◌^◌, ◌∷◌,
}
use snow.LinkBuffer.{Byte, LinkBuffer, linkbuffer_modify, linkbuffer_push, linkbuffer_size}
use snow.Value.{Word, to_word}
use snow.Operands.{DispSize, SnOp, disp32, disp8, make_opcode_ext, no_disp}

-- `RM_MODE`
pub data RmMode : Type 0 where
  rm_address rm_address_disp8 rm_address_disp32 rm_register : RmMode

unfoldable pub mode_bits : RmMode → ℕ
mode_bits rm_address = 0
mode_bits rm_address_disp8 = 1
mode_bits rm_address_disp32 = 2
mode_bits rm_register = 3

unfoldable pub emit : LinkBuffer → Byte → Result LinkBuffer
emit lb b = do (_, lb') ← linkbuffer_push lb b; ok lb'

-- The flags of REX are different bits, so `|` is a sum.
unfoldable pub rex_for_rm : SnOp → ℕ
rex_for_rm rm = if rm.ext then 1 else 0

unfoldable pub rex_for_reg : SnOp → ℕ
rex_for_reg reg = if reg.ext then 4 else 0

unfoldable pub rex_for_operands : SnOp → SnOp → ℕ
unfolding rex_for_rm rex_for_reg
rex_for_operands reg rm = rex_for_reg reg + rex_for_rm rm

unfoldable pub mod_of_size : DispSize → RmMode
mod_of_size no_disp = rm_address
mod_of_size disp8 = rm_address_disp8
mod_of_size disp32 = rm_address_disp32

unfoldable pub mod_for_operand : SnOp → RmMode
unfolding mod_of_size
mod_for_operand addr =
    if not addr.address
    then rm_register
    else if (addr.reg == 5) && not addr.ext
    then rm_address_disp32
    else mod_of_size addr.disp_size

unfoldable pub emit_rex : LinkBuffer → ℕ → Result LinkBuffer
emit_rex lb rex = if rex == 0 then ok lb else emit lb (64 + rex)

-- The low `num_bytes` bytes of a word, the lowest first.
unfoldable pub emit_word : LinkBuffer → Word → (num_bytes : ℕ) → Result LinkBuffer
emit_word lb w zero = ok lb
emit_word lb w (suc n) = do lb' ← emit lb (w % 256); emit_word lb' (w / 256) n

unfoldable pub emit_imm : LinkBuffer → ℤ → ℕ → Result LinkBuffer
unfolding emit_word
emit_imm lb imm num_bytes = emit_word lb (to_word imm) num_bytes

unfoldable pub disp_bytes : RmMode → ℕ
disp_bytes rm_address = 0
disp_bytes rm_address_disp8 = 1
disp_bytes rm_address_disp32 = 4
disp_bytes rm_register = 0

unfoldable pub emit_disp : LinkBuffer → SnOp → Result LinkBuffer
unfolding disp_bytes mod_for_operand
emit_disp lb rm = emit_imm lb rm.disp (disp_bytes (mod_for_operand rm))

-- The masked fields are different bits.
unfoldable pub emit_modrm : LinkBuffer → ℕ → ℕ → ℕ → Result LinkBuffer
emit_modrm lb m reg rm = emit lb (m % 4 * 64 + reg % 8 * 8 + rm % 8)

unfoldable pub emit_operands : LinkBuffer → SnOp → SnOp → Result LinkBuffer
unfolding mode_bits mod_for_operand emit_modrm emit_disp
emit_operands lb reg rm = do
  _ ← assert (not reg.address)
  lb' ← emit_modrm lb (mode_bits (mod_for_operand rm)) reg.reg rm.reg
  emit_disp lb' rm

unfoldable pub emit_instr : LinkBuffer → Byte → SnOp → SnOp → Result LinkBuffer
unfolding rex_for_operands emit_rex emit_operands
emit_instr lb opcode reg rm = do
  lb' ← emit_rex lb (rex_for_operands reg rm + 8)
  lb'' ← emit lb' opcode
  emit_operands lb'' reg rm

-- `DEFINE_INSTR_XI`: the offset of the immediate, and the buffer.
unfoldable pub instr_xi : Byte → Byte → LinkBuffer → ℤ → SnOp → Result (ℕ × LinkBuffer)
instr_xi opcode e lb imm rm = do
  lb' ← emit_instr lb opcode (make_opcode_ext e) rm
  lb'' ← emit_imm lb' imm 4
  ok (linkbuffer_size lb', lb'')

-- A negative offset is an unbound label.
pub record Label : Type 0 where
  pub offset : ℤ

-- A `LabelRef`: the offset of the four bytes. The label that it points at is an argument of `asm_link`.
pub record LabelRef : Type 0 where
  pub offset : ℕ

unfoldable pub asm_label : Label
asm_label = record { offset = negsuc 0 }

unfoldable pub asm_bind : LinkBuffer → Label → Result Label
asm_bind lb label = do
  _ ← assert (ltb_ℤ label.offset (pos 0))
  ok (record { offset = pos (linkbuffer_size lb) })

-- The four bytes of an `int32_t`.
unfoldable pub int32_bytes : ℤ → List Byte
int32_bytes d =
    let w = to_word d in w % 256 ∷ (w / 2 ^ 8 % 256) ∷ (w / 2 ^ 16 % 256) ∷ (w / 2 ^ 24 % 256) ∷ []

unfoldable pub asm_link : LinkBuffer → LabelRef → Label → Result LinkBuffer
asm_link lb ref label = do
  _ ← assert (not (ltb_ℤ label.offset (pos 0)))
  (_, lb') ← linkbuffer_modify lb ref.offset 4 (int32_bytes (label.offset -ℤ pos (ref.offset + 4)))
  ok lb'

-- `asm_shr`
unfoldable pub asm_shr : LinkBuffer → SnOp → Byte → Result LinkBuffer
asm_shr lb rm amount = do
  lb' ← emit_instr lb 193 (make_opcode_ext 5) rm
  emit_imm lb' (pos amount) 1

unfoldable pub asm_imul_i : LinkBuffer → SnOp → SnOp → ℤ → Result LinkBuffer
asm_imul_i lb reg rm imm = do lb' ← emit_instr lb 105 reg rm; emit_imm lb' imm 4

unfoldable pub asm_call : LinkBuffer → SnOp → Result LinkBuffer
asm_call lb rm = do
  _ ← assert (not rm.address)
  lb' ← emit_rex lb (rex_for_rm rm)
  lb'' ← emit lb' 255
  emit_operands lb'' (make_opcode_ext 2) rm

-- The offset of the immediate, and the buffer. A REX byte is emitted twice for an extended address.
unfoldable pub asm_mov_id : LinkBuffer → ℤ → SnOp → Result (ℕ × LinkBuffer)
asm_mov_id lb imm rm =
    if rm.address
    then (do
      lb₁ ← emit_rex lb (rex_for_rm rm)
      lb₂ ← emit_instr lb₁ 199 (make_opcode_ext 0) rm
      lb₃ ← emit_imm lb₂ imm 4
      ok (linkbuffer_size lb₂, lb₃))
    else (do
      lb₁ ← emit_rex lb (rex_for_rm rm + 8)
      lb₂ ← emit lb₁ (184 + rm.reg)
      lb₃ ← emit_imm lb₂ imm 8
      ok (linkbuffer_size lb₂, lb₃))

-- `COND`: the values that the code generator uses.
pub data Cond : Type 0 where
  cc_zero cc_not_zero cc_greater_equal : Cond

unfoldable pub cond_code : Cond → Byte
cond_code cc_zero = 4
cond_code cc_not_zero = 5
cond_code cc_greater_equal = 13

unfoldable pub asm_j : LinkBuffer → Cond → Result (LabelRef × LinkBuffer)
unfolding cond_code
asm_j lb cc = do
  lb₁ ← emit lb 15
  lb₂ ← emit lb₁ (128 + cond_code cc)
  lb₃ ← emit_imm lb₂ (pos 0) 4
  ok (record { offset = linkbuffer_size lb₂ }, lb₃)

unfoldable pub asm_jmp : LinkBuffer → Result (LabelRef × LinkBuffer)
asm_jmp lb = do
  lb₁ ← emit lb 233
  lb₂ ← emit_imm lb₁ (pos 0) 4
  ok (record { offset = linkbuffer_size lb₁ }, lb₂)

unfoldable pub asm_push : LinkBuffer → SnOp → Result LinkBuffer
asm_push lb reg = do
  _ ← assert (not reg.address)
  lb' ← emit_rex lb (rex_for_rm reg)
  emit lb' (80 + reg.reg)

unfoldable pub asm_pop : LinkBuffer → SnOp → Result LinkBuffer
asm_pop lb reg = do
  _ ← assert (not reg.address)
  lb' ← emit_rex lb (rex_for_rm reg)
  emit lb' (88 + reg.reg)

unfoldable pub asm_push_i : LinkBuffer → ℤ → Result (ℕ × LinkBuffer)
asm_push_i lb imm = do lb₁ ← emit lb 104; lb₂ ← emit_imm lb₁ imm 4; ok (linkbuffer_size lb₁, lb₂)

unfoldable pub asm_enter : LinkBuffer → (stack_size level : ℕ) → Result LinkBuffer
asm_enter lb stack_size level = do
  lb₁ ← emit lb 200
  lb₂ ← emit_imm lb₁ (pos stack_size) 2
  emit_imm lb₂ (pos level) 1
