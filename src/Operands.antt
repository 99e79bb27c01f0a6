-- ===== src/Operands.antt =====
-- snow/asm-x86_64.h: the operands of instructions, registers and addresses.
use snow.Base.{Bool, false, if◌then◌else◌, ltb_ℤ, negsuc, not, pos, true, ℕ, ℤ, ◌%◌, ◌||◌}
use snow.LinkBuffer.{Byte}

-- The values of `disp_size` that `make_op` and `make_address` store: 0, 1 and 4.
pub data DispSize : Type 0 where
  no_disp disp8 disp32 : DispSize

pub record SnOp : Type 0 where
  pub disp : ℤ
  pub disp_size : DispSize
  pub address : Bool
  pub ext : Bool
  pub reg : ℕ

-- `reg` is a bit field of three bits.
abbrev pub make_op : ℕ → Bool → SnOp
make_op r e = record { disp = pos 0; disp_size = no_disp; address = false; ext = e; reg = r % 8 }

abbrev pub size_of_disp : ℤ → DispSize
size_of_disp d =
    if ltb_ℤ d (pos 0) || ltb_ℤ (pos 0) d
    then (if ltb_ℤ (pos 127) d || not (ltb_ℤ (negsuc 127) d) then disp32 else disp8)
    else no_disp

abbrev pub make_address : SnOp → ℤ → SnOp
make_address r d = record r { address = true; disp = d; disp_size = size_of_disp d }

abbrev pub make_opcode_ext : Byte → SnOp
make_opcode_ext e = make_op e false

abbrev pub rax : SnOp
rax = make_op 0 false

abbrev pub rcx : SnOp
rcx = make_op 1 false

abbrev pub rdx : SnOp
rdx = make_op 2 false

abbrev pub rbx : SnOp
rbx = make_op 3 false

abbrev pub rsp : SnOp
rsp = make_op 4 false

abbrev pub rbp : SnOp
rbp = make_op 5 false

abbrev pub rsi : SnOp
rsi = make_op 6 false

abbrev pub rdi : SnOp
rdi = make_op 7 false

abbrev pub r8 : SnOp
r8 = make_op 0 true

abbrev pub r9 : SnOp
r9 = make_op 1 true

abbrev pub r10 : SnOp
r10 = make_op 2 true

abbrev pub r11 : SnOp
r11 = make_op 3 true

abbrev pub r13 : SnOp
r13 = make_op 5 true

abbrev pub r14 : SnOp
r14 = make_op 6 true
