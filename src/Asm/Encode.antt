-- ===== src/Asm/Encode.antt =====
-- tools/asm_pineapple.py: `OPC`, `_s12`, `_r`, `_i`, `_u` and the methods of `Asm` that emit one
-- finished word. A register or a funct field is a number; an immediate is any Python integer.
pub mod Fields
pub mod Bounds
use agil_a.Common.{ℕ}
use agil_a.Common.Int.{ℤ, pos, mask}
use agil_a.Common.Bits.{◌<<<◌, ◌>>>◌, ◌|||◌, ◌&&&◌}

-- The entries of `OPC`, under their lower-case names.
abbrev pub op_imm : ℕ
op_imm = 0b0010011

abbrev pub op_reg : ℕ
op_reg = 0b0110011

abbrev pub op_load : ℕ
op_load = 0b0000011

abbrev pub op_store : ℕ
op_store = 0b0100011

abbrev pub op_branch : ℕ
op_branch = 0b1100011

abbrev pub op_jal : ℕ
op_jal = 0b1101111

abbrev pub op_jalr : ℕ
op_jalr = 0b1100111

abbrev pub op_lui : ℕ
op_lui = 0b0110111

abbrev pub op_auipc : ℕ
op_auipc = 0b0010111

abbrev pub op_system : ℕ
op_system = 0b1110011

-- `_s12`: `v & 0xFFF`
unfoldable pub s12 : ℤ → ℕ
s12 v = mask 12 v

-- `_r`
unfoldable pub r_word : ℕ → ℕ → ℕ → ℕ → ℕ → ℕ → ℕ
r_word funct7 rs2 rs1 funct3 rd opcode =
    funct7 <<< 25 ||| rs2 <<< 20 ||| rs1 <<< 15 ||| funct3 <<< 12 ||| rd <<< 7 ||| opcode

-- `_i`
unfoldable pub i_word : ℤ → ℕ → ℕ → ℕ → ℕ → ℕ
unfolding s12
i_word imm rs1 funct3 rd opcode =
    s12 imm <<< 20 ||| rs1 <<< 15 ||| funct3 <<< 12 ||| rd <<< 7 ||| opcode

-- `_u`
unfoldable pub u_word : ℤ → ℕ → ℕ → ℕ
u_word imm20 rd opcode = mask 20 imm20 <<< 12 ||| rd <<< 7 ||| opcode

-- The word that `SB`, `SH` and `SW` build in the same way, each with its own funct3.
unfoldable pub s_word : ℕ → ℕ → ℕ → ℤ → ℕ
unfolding s12
s_word funct3 rs2 rs1 v =
    let imm = s12 v in
    imm >>> 5 <<< 25
    ||| rs2 <<< 20
    ||| rs1 <<< 15
    ||| funct3 <<< 12
    ||| (imm &&& 0x1F) <<< 7
    ||| op_store

-- The calls of the methods that emit one finished word, with the source's arguments in its order.
pub data Instr : Type 0 where
  add sub sll slt sltu xor srl sra or and : ℕ → ℕ → ℕ → Instr
  addi slti sltiu xori andi ori slli srli srai : ℕ → ℕ → ℤ → Instr
  lb lh lw lbu lhu jalr : ℕ → ℕ → ℤ → Instr
  lui auipc : ℕ → ℤ → Instr
  sb sw sh : ℕ → ℕ → ℤ → Instr
  ebreak : Instr

-- The word that each method hands to `emit`.
unfoldable pub word : Instr → ℕ
unfolding r_word i_word u_word s_word mask
word (add rd rs1 rs2) = r_word 0 rs2 rs1 0b000 rd op_reg
word (sub rd rs1 rs2) = r_word 0x20 rs2 rs1 0b000 rd op_reg
word (sll rd rs1 rs2) = r_word 0 rs2 rs1 0b001 rd op_reg
word (slt rd rs1 rs2) = r_word 0 rs2 rs1 0b010 rd op_reg
word (sltu rd rs1 rs2) = r_word 0 rs2 rs1 0b011 rd op_reg
word (xor rd rs1 rs2) = r_word 0 rs2 rs1 0b100 rd op_reg
word (srl rd rs1 rs2) = r_word 0 rs2 rs1 0b101 rd op_reg
word (sra rd rs1 rs2) = r_word 0x20 rs2 rs1 0b101 rd op_reg
word (or rd rs1 rs2) = r_word 0 rs2 rs1 0b110 rd op_reg
word (and rd rs1 rs2) = r_word 0 rs2 rs1 0b111 rd op_reg
word (addi rd rs1 imm) = i_word imm rs1 0b000 rd op_imm
word (slti rd rs1 imm) = i_word imm rs1 0b010 rd op_imm
word (sltiu rd rs1 imm) = i_word imm rs1 0b011 rd op_imm
word (xori rd rs1 imm) = i_word imm rs1 0b100 rd op_imm
word (andi rd rs1 imm) = i_word imm rs1 0b111 rd op_imm
word (ori rd rs1 imm) = i_word imm rs1 0b110 rd op_imm
word (slli rd rs1 amount) = i_word (pos (mask 5 amount)) rs1 0b001 rd op_imm
word (srli rd rs1 amount) = i_word (pos (mask 5 amount)) rs1 0b101 rd op_imm
word (srai rd rs1 amount) = i_word (pos (0x400 ||| mask 5 amount)) rs1 0b101 rd op_imm
word (lb rd rs1 imm) = i_word imm rs1 0b000 rd op_load
word (lh rd rs1 imm) = i_word imm rs1 0b001 rd op_load
word (lw rd rs1 imm) = i_word imm rs1 0b010 rd op_load
word (lbu rd rs1 imm) = i_word imm rs1 0b100 rd op_load
word (lhu rd rs1 imm) = i_word imm rs1 0b101 rd op_load
word (jalr rd rs1 imm) = i_word imm rs1 0b000 rd op_jalr
word (lui rd imm20) = u_word imm20 rd op_lui
word (auipc rd imm20) = u_word imm20 rd op_auipc
word (sb rs2 rs1 imm) = s_word 0b000 rs2 rs1 imm
word (sw rs2 rs1 imm) = s_word 0b010 rs2 rs1 imm
word (sh rs2 rs1 imm) = s_word 0b001 rs2 rs1 imm
word ebreak = i_word (pos 0x001) 0 0b000 0 op_system

-- `((b12 << 31) | … | OPC['OP_BRANCH'])` of `finalize`, from the offset in bytes.
unfoldable pub branch_word : ℕ → ℕ → ℕ → ℤ → ℕ
unfolding mask
branch_word funct3 rs1 rs2 off =
    let imm = mask 13 off in
    let b12 = imm >>> 12 &&& 1 in
    let b10_5 = imm >>> 5 &&& 0x3F in
    let b4_1 = imm >>> 1 &&& 0xF in
    let b11 = imm >>> 11 &&& 1 in
    b12 <<< 31
    ||| b10_5 <<< 25
    ||| rs2 <<< 20
    ||| rs1 <<< 15
    ||| funct3 <<< 12
    ||| b4_1 <<< 8
    ||| b11 <<< 7
    ||| op_branch

-- `((b20 << 31) | … | OPC['OP_JAL'])` of `finalize`, from the offset in bytes.
unfoldable pub jal_word : ℕ → ℤ → ℕ
unfolding mask
jal_word rd off =
    let imm = mask 21 off in
    let b20 = imm >>> 20 &&& 1 in
    let b10_1 = imm >>> 1 &&& 0x3FF in
    let b11 = imm >>> 11 &&& 1 in
    let b19_12 = imm >>> 12 &&& 0xFF in
    b20 <<< 31 ||| b10_1 <<< 21 ||| b11 <<< 20 ||| b19_12 <<< 12 ||| rd <<< 7 ||| op_jal
