-- ===== src/Core/Encoded/Fields.antt =====
-- What the decoder of src/rv32i_core.v reads in the words of tools/asm_pineapple.py.
use agil_a.Common.{ℕ, ◌+◌, ◌*◌, ◌/◌, ◌%◌, ◌^◌, ◌<◌, ◌≡◌, arith}
use agil_a.Common.Int.{ℤ, pos, negsuc, mask, mask-lt}
use agil_a.Asm.Encode.{
  r_word, i_word, s_word, u_word, branch_word, jal_word, op_reg, op_store, op_branch, op_jal,
}
use agil_a.Asm.Encode.Fields.{
  r_word_sum, i_word_sum, s_word_sum, u_word_sum, branch_word_sum, jal_word_sum,
}
use agil_a.Core.Decode.{decode, sign_extend}
use agil_a.Core.Meaning.{Fits}

-- An immediate that fits twelve bits survives the encoding and the sign extension.
pub sign_extend-mask : (imm : ℤ) → Fits imm → sign_extend 12 (mask 12 imm) ≡ mask 32 imm
unfolding mask
sign_extend-mask (pos n) h = ground arith
sign_extend-mask (negsuc n) h = ground arith

pub r_fields :
    (funct7 rs2 rs1 funct3 rd : ℕ)
    → funct7 < 128
    → rs2 < 32
    → rs1 < 32
    → funct3 < 8
    → rd < 32
    → let f = decode (r_word funct7 rs2 rs1 funct3 rd op_reg) in
      (f.opcode ≡ op_reg)
      × (f.rd ≡ rd)
      × (f.rs1 ≡ rs1)
      × (f.rs2 ≡ rs2)
      × (f.funct3 ≡ funct3)
      × (f.funct7_b5 ≡ funct7 / 32 % 2)
unfolding decode
r_fields funct7 rs2 rs1 funct3 rd h7 h2 h1 h3 hd =
    omega (arith, r_word_sum funct7 rs2 rs1 funct3 rd op_reg h2 h1 h3 hd (omega arith))

pub i_fields :
    (imm : ℤ) (rs1 funct3 rd opcode : ℕ)
    → rs1 < 32
    → funct3 < 8
    → rd < 32
    → opcode < 128
    → let f = decode (i_word imm rs1 funct3 rd opcode) in
      (f.opcode ≡ opcode)
      × (f.rd ≡ rd)
      × (f.rs1 ≡ rs1)
      × (f.funct3 ≡ funct3)
      × (f.funct7_b5 ≡ mask 12 imm / 1024 % 2)
      × (f.imm12 ≡ mask 12 imm)
      × (f.imm_i ≡ sign_extend 12 (mask 12 imm))
unfolding decode
i_fields imm rs1 funct3 rd opcode h1 h3 hd ho =
    let w = i_word imm rs1 funct3 rd opcode in
    let sum = i_word_sum imm rs1 funct3 rd opcode h1 h3 hd ho in
    let top : w / 2 ^ 20 % 2 ^ 12 ≡ mask 12 imm = omega (arith, sum, mask-lt 12 imm) in
    (
      omega (arith, sum),
      omega (arith, sum),
      omega (arith, sum),
      omega (arith, sum),
      omega (arith, sum),
      top,
      rw top,
    )

pub s_fields :
    (funct3 rs2 rs1 : ℕ) (imm : ℤ)
    → rs2 < 32
    → rs1 < 32
    → funct3 < 8
    → let f = decode (s_word funct3 rs2 rs1 imm) in
      (f.opcode ≡ op_store)
      × (f.rs1 ≡ rs1)
      × (f.rs2 ≡ rs2)
      × (f.funct3 ≡ funct3)
      × (f.imm_s ≡ sign_extend 12 (mask 12 imm))
unfolding decode
s_fields funct3 rs2 rs1 imm h2 h1 h3 =
    let w = s_word funct3 rs2 rs1 imm in
    let sum = s_word_sum funct3 rs2 rs1 imm h2 h1 h3 in
    let whole : w / 2 ^ 25 % 2 ^ 7 * 2 ^ 5 + w / 2 ^ 7 % 2 ^ 5 ≡ mask 12 imm =
      omega (arith, sum, mask-lt 12 imm) in
    (omega (arith, sum), omega (arith, sum), omega (arith, sum), omega (arith, sum), rw whole)

pub u_fields :
    (imm20 : ℤ) (rd opcode : ℕ)
    → rd < 32
    → opcode < 128
    → let f = decode (u_word imm20 rd opcode) in
      (f.opcode ≡ opcode) × (f.rd ≡ rd) × (f.imm_u ≡ mask 20 imm20 * 2 ^ 12)
unfolding decode
u_fields imm20 rd opcode hd ho = omega (arith, u_word_sum imm20 rd opcode hd ho, mask-lt 20 imm20)

pub branch_fields :
    (funct3 rs1 rs2 : ℕ) (off : ℤ)
    → rs1 < 32
    → rs2 < 32
    → funct3 < 8
    → mask 13 off % 2 ≡ 0
    → let f = decode (branch_word funct3 rs1 rs2 off) in
      (f.opcode ≡ op_branch)
      × (f.rs1 ≡ rs1)
      × (f.rs2 ≡ rs2)
      × (f.funct3 ≡ funct3)
      × (f.imm_b ≡ mask 13 off % 256)
unfolding decode
branch_fields funct3 rs1 rs2 off h1 h2 h3 even =
    let sum = branch_word_sum funct3 rs1 rs2 off h1 h2 h3 in
    (
      omega (arith, sum),
      omega (arith, sum),
      omega (arith, sum),
      omega (arith, sum),
      omega (arith, sum),
    )

pub jal_fields :
    (rd : ℕ) (off : ℤ)
    → rd < 32
    → mask 21 off % 2 ≡ 0
    → let f = decode (jal_word rd off) in
      (f.opcode ≡ op_jal) × (f.rd ≡ rd) × (f.imm_j ≡ mask 21 off % 256)
unfolding decode
jal_fields rd off hd even =
    let sum = jal_word_sum rd off hd in (omega (arith, sum), omega (arith, sum), omega (arith, sum))
