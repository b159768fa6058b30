-- ===== src/Core/Alu.antt =====
-- src/rv32i_core.v: the ALU, the choice of its operation, and the branch condition.
use agil_a.Common.{
  ℕ, ◌+◌, ◌-◌, ◌*◌, ◌/◌, ◌%◌, ◌^◌, bit_and, bit_or, bit_xor, Bool, true, false, ltb, leb, ◌==◌,
  if◌then◌else◌,
}
use agil_a.Common.Int.{signed, ltb_ℤ}
use agil_a.Asm.Encode.{op_imm, op_reg, op_branch}

-- The values of `alu_op`, as its comment names them.
pub data AluOp : Type 0 where
  add sub sll slt sltu xor srl sra or and : AluOp

-- `$signed(a) < $signed(b)`
unfoldable pub signed_lt : ℕ → ℕ → Bool
unfolding signed
signed_lt a b = ltb_ℤ (signed 32 a) (signed 32 b)

-- `$signed(a) >>> k`: a set bit 31 is shifted in.
unfoldable pub shift_right_arithmetic : ℕ → ℕ → ℕ
shift_right_arithmetic a k =
    if ltb a (2 ^ 31) then a / 2 ^ k else 2 ^ 32 - 1 - (2 ^ 32 - 1 - a) / 2 ^ k

-- `alu_y`
unfoldable pub alu : AluOp → ℕ → ℕ → ℕ
unfolding signed_lt shift_right_arithmetic
alu add a b = (a + b) % 2 ^ 32
alu sub a b = (a + 2 ^ 32 - b) % 2 ^ 32
alu sll a b = a * 2 ^ (b % 32) % 2 ^ 32
alu slt a b = if signed_lt a b then 1 else 0
alu sltu a b = if ltb a b then 1 else 0
alu xor a b = bit_xor a b
alu srl a b = a / 2 ^ (b % 32)
alu sra a b = shift_right_arithmetic a (b % 32)
alu or a b = bit_or a b
alu and a b = bit_and a b

-- `alu_op`, from the opcode, funct3 and bit 5 of funct7.
unfoldable pub alu_op : ℕ → ℕ → ℕ → AluOp
alu_op opcode funct3 b5 =
    if opcode == op_imm
    then if funct3 == 0b000
      then add
      else if funct3 == 0b010
      then slt
      else if funct3 == 0b011
      then sltu
      else if funct3 == 0b100
      then xor
      else if funct3 == 0b110
      then or
      else if funct3 == 0b111
      then and
      else if funct3 == 0b001
      then sll
      else if b5 == 1
      then sra
      else srl
    else if opcode == op_reg
    then if funct3 == 0b000
      then if b5 == 1 then sub else add
      else if funct3 == 0b001
      then sll
      else if funct3 == 0b010
      then slt
      else if funct3 == 0b011
      then sltu
      else if funct3 == 0b100
      then xor
      else if funct3 == 0b101
      then if b5 == 1 then sra else srl
      else if funct3 == 0b110
      then or
      else and
    else if opcode == op_branch
    then sub
    else add

-- `branch_cond`
unfoldable pub branch_cond : ℕ → ℕ → ℕ → Bool
unfolding signed_lt
branch_cond funct3 a b =
    if funct3 == 0b000
    then a == b
    else if funct3 == 0b001
    then if a == b then false else true
    else if funct3 == 0b100
    then signed_lt a b
    else if funct3 == 0b101
    then if signed_lt a b then false else true
    else if funct3 == 0b110
    then ltb a b
    else if funct3 == 0b111
    then leb b a
    else false
