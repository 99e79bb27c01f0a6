-- ===== src/Asm/Encode.antt =====
-- The bytes that the assembler of asm-x86_64.h pushes for an instruction with two operands.
use snow.Base.{
  Bool-cases, List, Result, Returns, Returns-bind, Returns-mono, [], ap, append-nil, append_assoc,
  arith, false, if◌then◌else◌, inl, inr, ok, returns, suc, sym, zero, ℕ, ℤ, ◌%◌, ◌*◌, ◌++◌, ◌+◌,
  ◌/◌, ◌==◌, ◌>>=◌, ◌∙◌, ◌∷◌, ◌≡◌,
}
use snow.LinkBuffer.{Byte, LinkBuffer}
use snow.LinkBuffer.Contents.{IsValid, contents, linkbuffer_push-Appended}
use snow.Asm.{
  disp_bytes, emit, emit_disp, emit_imm, emit_instr, emit_modrm, emit_operands, emit_rex, emit_word,
  mod_for_operand, mode_bits, rex_for_operands,
}
use snow.Value.{Word, to_word}
use snow.Operands.{SnOp}

-- What pushing some bytes leaves.
abbrev pub Pushed : LinkBuffer → List Byte → LinkBuffer → Type 0
Pushed lb bs lb' = (contents lb' ≡ contents lb ++ bs) × IsValid lb'

-- A piece of the assembler that pushes these bytes to any valid buffer.
abbrev pub Emits : (LinkBuffer → Result LinkBuffer) → List Byte → Type 0
Emits f bs = (lb : LinkBuffer) → IsValid lb → Returns (Pushed lb bs) (f lb)

pub Emits-then :
    (f g : LinkBuffer → Result LinkBuffer) (xs ys : List Byte)
    → Emits f xs
    → Emits g ys
    → Emits (λ lb. f lb >>= g) (xs ++ ys)
Emits-then f g xs ys p q lb v = Returns-bind (p lb v) λ lb' (e, v').
    Returns-mono (q lb' v')
      λ lb'' (e', v''). (e' ∙ ap (λ t. t ++ ys) e ∙ append_assoc (contents lb) xs ys, v'')

pub Emits-nothing : Emits ok []
Emits-nothing lb v = returns (sym (append-nil _), v)

pub emit-Emits : (b : Byte) → Emits (λ lb. emit lb b) (b ∷ [])
unfolding emit
emit-Emits b lb v =
    Returns-bind (linkbuffer_push-Appended b v) λ (k, lb') (_, e, v', _). returns (e, v')

abbrev pub word_bytes : Word → ℕ → List Byte
word_bytes w zero = []
word_bytes w (suc n) = w % 256 ∷ word_bytes (w / 256) n

emit_word-Emits : (n : ℕ) (w : Word) → Emits (λ lb. emit_word lb w n) (word_bytes w n)
unfolding emit_word
emit_word-Emits zero w = Emits-nothing
emit_word-Emits (suc n) w =
    Emits-then (λ lb. emit lb (w % 256)) (λ lb. emit_word lb (w / 256) n) (w % 256 ∷ [])
      (word_bytes (w / 256) n) (emit-Emits (w % 256)) (emit_word-Emits n (w / 256))

pub emit_imm-Emits :
    (imm : ℤ) (n : ℕ) → Emits (λ lb. emit_imm lb imm n) (word_bytes (to_word imm) n)
unfolding emit_imm
emit_imm-Emits imm n = emit_word-Emits n (to_word imm)

abbrev pub rex_bytes : ℕ → List Byte
rex_bytes r = if r == 0 then [] else (64 + r) ∷ []

pub emit_rex-Emits : (r : ℕ) → Emits (λ lb. emit_rex lb r) (rex_bytes r)
unfolding emit_rex
emit_rex-Emits r = elim (Bool-cases (r == 0)) [
  | inl z ↦ rw z Emits-nothing
  | inr nz ↦ rw nz (emit-Emits (64 + r))
]

-- ModRM and the displacement.
abbrev pub modrm : SnOp → SnOp → Byte
modrm reg rm = mode_bits (mod_for_operand rm) % 4 * 64 + reg.reg % 8 * 8 + rm.reg % 8

abbrev pub operand_bytes : SnOp → SnOp → List Byte
operand_bytes reg rm = modrm reg rm ∷ word_bytes (to_word rm.disp) (disp_bytes (mod_for_operand rm))

pub emit_operands-Emits :
    (reg rm : SnOp)
    → reg.address ≡ false
    → Emits (λ lb. emit_operands lb reg rm) (operand_bytes reg rm)
unfolding emit_operands emit_modrm emit_disp
emit_operands-Emits reg rm plain lb v = rw plain (
    Emits-then (λ lb. emit lb (modrm reg rm)) (λ lb. emit_disp lb rm) (modrm reg rm ∷ [])
      (word_bytes (to_word rm.disp) (disp_bytes (mod_for_operand rm))) (emit-Emits (modrm reg rm))
      (emit_imm-Emits rm.disp (disp_bytes (mod_for_operand rm))) lb v)

abbrev pub instr_bytes : Byte → SnOp → SnOp → List Byte
instr_bytes opcode reg rm = (72 + rex_for_operands reg rm) ∷ opcode ∷ operand_bytes reg rm

-- An instruction is REX, the opcode, ModRM and the displacement.
pub emit_instr-Emits :
    (opcode : Byte) (reg rm : SnOp)
    → reg.address ≡ false
    → Emits (λ lb. emit_instr lb opcode reg rm) (instr_bytes opcode reg rm)
unfolding emit_instr
emit_instr-Emits opcode reg rm plain =
    let r : ℕ = rex_for_operands reg rm in
    let wide : rex_bytes (r + 8) ≡ (72 + r) ∷ [] = ground arith in
    rw wide at (
      Emits-then (λ lb. emit_rex lb (r + 8)) (λ lb. emit lb opcode >>= λ l. emit_operands l reg rm)
        (rex_bytes (r + 8)) (opcode ∷ operand_bytes reg rm) (emit_rex-Emits (r + 8))
        (Emits-then (λ lb. emit lb opcode) (λ lb. emit_operands lb reg rm) (opcode ∷ [])
          (operand_bytes reg rm) (emit-Emits opcode) (emit_operands-Emits reg rm plain)))
