-- ===== src/Codegen/Machine.antt =====
-- A processor for the instructions that `codegen_compile_call_with_inlining` emits for
-- `snow_eval_truth`, as its manual describes them: the specification of that code. It has no
-- counterpart in the source.
mod Bits
pub mod Truth
use snow.Asm.Decode.{Decoded, Operand, at_memory, decode, in_register, read_disp32, rip_relative}
use snow.Base.{
  Bool, List, Option, [], drop, if◌then◌else◌, leb, length, none, pos, pos_part, some, suc, zero, ℕ,
  ℤ, ◌%◌, ◌&&◌, ◌*◌, ◌+ℤ◌, ◌+◌, ◌-◌, ◌/◌, ◌==◌, ◌∷◌,
}
use snow.LinkBuffer.{Byte}
use snow.Value.{Word}
use Prim.Native.Nat.{bit_and, bit_xor}

-- The instruction pointer, the registers by number, and the zero flag.
pub record Machine : Type 0 where
  pub pc : ℕ
  pub regs : ℕ → Word
  pub zero_flag : Bool

abbrev pub set_reg : (ℕ → Word) → ℕ → Word → ℕ → Word
set_reg regs r w = λ n. if n == r then w else regs n

-- An instruction with two registers: mov, and, xor, cmp.
abbrev exec_registers : Byte → (reg rm next : ℕ) → Machine → Option Machine
exec_registers op reg rm next m =
    let a : Word = m.regs rm in
    let b : Word = m.regs reg in
    if op == 137
    then some (record m { pc = next; regs = set_reg m.regs rm b })
    else if op == 33
    then some
        (record { pc = next; regs = set_reg m.regs rm (bit_and a b); zero_flag = bit_and a b == 0 })
    else if op == 49
    then some
        (record { pc = next; regs = set_reg m.regs rm (bit_xor a b); zero_flag = bit_xor a b == 0 })
    else if op == 57
    then some (record m { pc = next; zero_flag = a == b })
    else none

abbrev exec_operand : Byte → ℕ → Operand → ℕ → Machine → Option Machine
exec_operand op reg (in_register rm) next m = exec_registers op reg rm next m
exec_operand op reg (at_memory b d) next m = none
exec_operand op reg (rip_relative d) next m = none

abbrev exec_decoded : ℕ → Option (Decoded × List Byte) → Machine → Option Machine
exec_decoded len none m = none
exec_decoded len (some (i, rest)) m =
    exec_operand i.opcode i.reg i.rm (m.pc + (len - length rest)) m

-- So many bytes, the lowest first.
abbrev read_word : ℕ → List Byte → Word
read_word zero bs = 0
read_word (suc n) [] = 0
read_word (suc n) (b ∷ bs) = b + 256 * read_word n bs

abbrev jump_to : ℕ → Option (ℤ × List Byte) → Machine → Option Machine
jump_to next none m = none
jump_to next (some (d, _)) m = some (record m { pc = pos_part (pos next +ℤ d) })

-- jz and jnz
abbrev exec_jump : Byte → List Byte → Machine → Option Machine
exec_jump cc rest m =
    if cc == 132
    then (if m.zero_flag
        then jump_to (m.pc + 6) (read_disp32 rest) m
        else some (record m { pc = m.pc + 6 }))
    else if cc == 133
    then (if m.zero_flag
        then some (record m { pc = m.pc + 6 })
        else jump_to (m.pc + 6) (read_disp32 rest) m)
    else none

-- Behind the end of the code nothing runs.
abbrev exec_bytes : List Byte → Machine → Option Machine
exec_bytes (a ∷ b ∷ rest) m =
    if a == 15
    then exec_jump b rest m
    else if (a / 8 == 9) && (leb 184 b && leb b 191)
    then some (record m {
      pc = m.pc + 10;
      regs = set_reg m.regs (b - 184 + 8 * (a % 2)) (read_word 8 rest);
    })
    else exec_decoded (length (a ∷ b ∷ rest)) (decode (a ∷ b ∷ rest)) m
exec_bytes (a ∷ []) m = none
exec_bytes [] m = some m

unfoldable pub step : List Byte → Machine → Option Machine
step code m = exec_bytes (drop m.pc code) m

-- So many steps.
unfoldable pub run : ℕ → List Byte → Machine → Option Machine
run zero code m = some m
run (suc n) code m = elim (step code m) [ none ↦ none | some m' ↦ run n code m' ]
