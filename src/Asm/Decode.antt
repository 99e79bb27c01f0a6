-- ===== src/Asm/Decode.antt =====
-- What a processor reads in the bytes of an instruction with two operands, by the format that its
-- manual gives: REX, an opcode, ModRM, a displacement.
use snow.Asm.{
  RmMode, disp_bytes, emit_instr, mod_for_operand, mod_of_size, mode_bits, rex_for_operands,
}
use snow.Asm.Encode.{emit_instr-Emits, instr_bytes, modrm, word_bytes}
use snow.Base.{
  Bool, List, Option, Returns, Returns-mono, [], arith, false, if◌then◌else◌, ltb, neg_part, negsuc,
  none, not, pos, pos_part, refl, some, true, ℕ, ℤ, ◌%◌, ◌&&◌, ◌*◌, ◌++◌, ◌+◌, ◌-◌, ◌/◌, ◌<◌, ◌==◌,
  ◌^◌, ◌∷◌, ◌≡◌, ◌≤◌,
}
use snow.LinkBuffer.{Byte, LinkBuffer}
use snow.Value.{to_word}
use snow.LinkBuffer.Contents.{IsValid, contents}
use snow.Operands.{DispSize, SnOp, disp32, disp8, no_disp}

-- An operand: a register, the memory at a register's value and a distance, or the memory at a distance
-- from the next instruction. Registers are numbered from 0 to 15.
pub data Operand : Type 0 where
  in_register : ℕ → Operand
  at_memory : ℕ → ℤ → Operand
  rip_relative : ℤ → Operand

pub record Decoded : Type 0 where
  pub opcode : Byte
  pub reg : ℕ
  pub rm : Operand

abbrev signed : (sign u : ℕ) → ℤ
signed sign u = if ltb u sign then pos u else negsuc (sign + sign - u - 1)

abbrev read_disp8 : List Byte → Option (ℤ × List Byte)
read_disp8 [] = none
read_disp8 (a ∷ rest) = some (signed 128 a, rest)

abbrev pub read_disp32 : List Byte → Option (ℤ × List Byte)
read_disp32 (a ∷ b ∷ c ∷ d ∷ rest) =
    some (signed 2147483648 (a + b * 256 + c * 65536 + d * 16777216), rest)
read_disp32 _ = none

abbrev at_base : Byte → ℕ → ℕ → Option (ℤ × List Byte) → Option (Decoded × List Byte)
at_base op r b none = none
at_base op r b (some (d, rest)) = some (record { opcode = op; reg = r; rm = at_memory b d }, rest)

abbrev at_rip : Byte → ℕ → Option (ℤ × List Byte) → Option (Decoded × List Byte)
at_rip op r none = none
at_rip op r (some (d, rest)) = some (record { opcode = op; reg = r; rm = rip_relative d }, rest)

-- The mode, the register, the bit of REX for the base, and the base. An address with base 4 has another
-- byte (SIB), which is not decoded here; base 5 with mode 0 is relative to the next instruction.
abbrev decode_operand : Byte → (mode r rex_b base : ℕ) → List Byte → Option (Decoded × List Byte)
decode_operand op m r x b rest =
    if m == 3
    then some (record { opcode = op; reg = r; rm = in_register (b + 8 * x) }, rest)
    else if b == 4
    then none
    else if (m == 0) && (b == 5)
    then at_rip op r (read_disp32 rest)
    else if m == 0
    then some (record { opcode = op; reg = r; rm = at_memory (b + 8 * x) (pos 0) }, rest)
    else if m == 1
    then at_base op r (b + 8 * x) (read_disp8 rest)
    else at_base op r (b + 8 * x) (read_disp32 rest)

-- The first byte must be REX with a 64-bit operand and no index.
unfoldable pub decode : List Byte → Option (Decoded × List Byte)
decode (rex ∷ op ∷ modrm ∷ rest) =
    if (rex / 8 == 9) && (rex / 2 % 2 == 0)
    then decode_operand op (modrm / 64) (modrm / 8 % 8 + 8 * (rex / 4 % 2)) (rex % 2) (modrm % 8)
        rest
    else none
decode _ = none

-- The register that an operand names.
abbrev pub number : SnOp → ℕ
number o = if o.ext then o.reg + 8 else o.reg

abbrev has_no_disp : DispSize → Bool
has_no_disp no_disp = true
has_no_disp disp8 = false
has_no_disp disp32 = false

-- The displacement fits its size.
abbrev pub FitsIn : DispSize → ℤ → Type 0
FitsIn no_disp d = d ≡ pos 0
FitsIn disp8 d = (pos_part d < 128) × (neg_part d ≤ 128)
FitsIn disp32 d = (pos_part d < 2147483648) × (neg_part d ≤ 2147483648)

-- What the instruction with these operands, and `rest` behind it, is read as.
abbrev pub meaning : Byte → SnOp → SnOp → List Byte → Option (Decoded × List Byte)
meaning op reg rm rest =
    if not rm.address
    then some (record { opcode = op; reg = number reg; rm = in_register (number rm) }, rest)
    else if rm.reg == 4
    then none
    else if (rm.reg == 5) && (rm.ext && has_no_disp rm.disp_size)
    then at_rip op (number reg) (read_disp32 rest)
    else some (record { opcode = op; reg = number reg; rm = at_memory (number rm) rm.disp }, rest)

read_disp8_word :
    (d : ℤ) (rest : List Byte)
    → FitsIn disp8 d
    → read_disp8 (word_bytes (to_word d) 1 ++ rest) ≡ some (d, rest)
read_disp8_word (pos n) rest h = ground arith
read_disp8_word (negsuc n) rest h = ground arith

pub signed-to_word : (d : ℤ) → FitsIn disp32 d → signed 2147483648 (to_word d % 4294967296) ≡ d
signed-to_word (pos n) h = ground arith
signed-to_word (negsuc n) h = ground arith

low_word_mod :
    (n : ℕ)
    → n % 256
        + n / 256 % 256 * 256
        + n / 256 / 256 % 256 * 65536
        + n / 256 / 256 / 256 % 256 * 16777216
      ≡ n % 4294967296
low_word_mod n = omega arith

pub low_word_32 :
    (n : ℕ)
    → n % 256 + n / 2 ^ 8 % 256 * 256 + n / 2 ^ 16 % 256 * 65536 + n / 2 ^ 24 % 256 * 16777216
      ≡ n % 4294967296
low_word_32 n = omega arith

read_disp32_word :
    (d : ℤ) (rest : List Byte)
    → FitsIn disp32 d
    → read_disp32 (word_bytes (to_word d) 4 ++ rest) ≡ some (d, rest)
read_disp32_word d rest h = rw (low_word_mod (to_word d), signed-to_word d h) refl

module _ (op m r x b y : ℕ) (rest : List Byte) (hm : m < 4) (hr : r < 8) (hx : x < 2)
    (hb : b < 8) where
  -- The fields of REX and ModRM are read back.
  decode_fields :
      y < 2
      → decode ((72 + (4 * x + y)) ∷ op ∷ (m % 4 * 64 + r % 8 * 8 + b % 8) ∷ rest)
        ≡ decode_operand op m (r + 8 * x) y b rest
  unfolding decode
  decode_fields hy =
      let w : (72 + (4 * x + y)) / 8 ≡ 9 = omega arith in
      let i : (72 + (4 * x + y)) / 2 % 2 ≡ 0 = omega arith in
      let x' : (72 + (4 * x + y)) / 4 % 2 ≡ x = omega arith in
      let y' : (72 + (4 * x + y)) % 2 ≡ y = omega arith in
      let n : ℕ = m % 4 * 64 + r % 8 * 8 + b % 8 in
      let m' : n / 64 ≡ m = omega arith in
      let r' : n / 8 % 8 ≡ r = omega arith in
      let b' : n % 8 ≡ b = omega arith in rw (w, i, x', y', m', r', b') refl

abbrev bit : Bool → ℕ
bit e = if e then 1 else 0

bit-lt : (e : Bool) → bit e < 2
bit-lt e = ground arith

rex_for_operands_bits : (reg rm : SnOp) → rex_for_operands reg rm ≡ 4 * bit reg.ext + bit rm.ext
unfolding rex_for_operands
rex_for_operands_bits reg rm = ground arith

mode_bits-lt : (m : RmMode) → mode_bits m < 4
unfolding mode_bits
mode_bits-lt m = ground arith

decode-operand :
    (op : Byte) (reg rm : SnOp) (rest : List Byte)
    → reg.reg < 8
    → rm.reg < 8
    → decode (instr_bytes op reg rm ++ rest)
      ≡ decode_operand op
          (mode_bits (mod_for_operand rm))
          (reg.reg + 8 * bit reg.ext)
          (bit rm.ext)
          rm.reg
          (word_bytes (to_word rm.disp) (disp_bytes (mod_for_operand rm)) ++ rest)
decode-operand op reg rm rest p q = rw (rex_for_operands_bits reg rm) (
    decode_fields op (mode_bits (mod_for_operand rm)) reg.reg (bit reg.ext) rm.reg (bit rm.ext) _
      (mode_bits-lt _) p (bit-lt _) q (bit-lt _))

-- An instruction that was encoded is read as it was meant, except that an address with base RSP or R12
-- lacks a byte and that R13 without displacement is read as relative to the next instruction.
pub decode-instr_bytes :
    (op : Byte) (reg rm : SnOp) (rest : List Byte)
    → reg.reg < 8
    → rm.reg < 8
    → FitsIn rm.disp_size rm.disp
    → decode (instr_bytes op reg rm ++ rest) ≡ meaning op reg rm rest
unfolding mode_bits mod_for_operand disp_bytes mod_of_size
decode-instr_bytes op reg rm rest p q f =
    rw (decode-operand op reg rm rest p q)
      (ground (arith, read_disp8_word rm.disp rest, read_disp32_word rm.disp rest))

-- What an instruction leaves: a valid buffer with bytes behind the old ones, which are read as this,
-- whatever comes behind them.
abbrev pub ReadAs : LinkBuffer → (List Byte → Option (Decoded × List Byte)) → LinkBuffer → Type 0
ReadAs lb m lb' =
    (bs : List Byte) × (contents lb' ≡ contents lb ++ bs)
    × IsValid lb'
    × ((rest : List Byte) → decode (bs ++ rest) ≡ m rest)

-- On a valid buffer `emit_instr` with a plain register and an operand whose displacement fits its size
-- returns, keeps the bytes that are there, and appends bytes that a processor reads, whatever comes
-- behind them, as the instruction that was meant: with the register or the memory at the base and the
-- displacement; but it reads R13 without displacement as relative to the next instruction, and
-- for the bases RSP and R12 it expects another byte, which is not there.
pub emit_instr-ReadAs :
    (lb : LinkBuffer) (op : Byte) (reg rm : SnOp)
    → IsValid lb
    → reg.address ≡ false
    → reg.reg < 8
    → rm.reg < 8
    → FitsIn rm.disp_size rm.disp
    → Returns (ReadAs lb (meaning op reg rm)) (emit_instr lb op reg rm)
emit_instr-ReadAs lb op reg rm v plain p q f =
    Returns-mono (emit_instr-Emits op reg rm plain lb v)
      λ lb' (e, v'). (instr_bytes op reg rm, e, v', λ rest. decode-instr_bytes op reg rm rest p q f)
