-- ===== src/Core/Encoded/Instrs.antt =====
-- Every finished word that tools/asm_pineapple.py's `Asm` emits, on the core of src/rv32i_core.v.
use agil_a.Common.{ℕ, ◌/◌, ◌%◌, ◌<◌, ◌≡◌, refl, arith, bit_or}
use agil_a.Common.Int.{ℤ, pos, mask, mask-lt}
use agil_a.Common.Bits.{bit_or_disjoint}
use agil_a.Asm.Encode.{
  Instr, word, add, sub, sll, slt, sltu, xor, srl, sra, or, and, addi, slti, sltiu, xori, andi, ori,
  slli, srli, srai, lb, lh, lw, lbu, lhu, jalr, lui, auipc, sb, sw, sh, ebreak, i_word, op_imm,
}
use agil_a.Core.Decode.{sign_extend}
use agil_a.Core.Alu.{alu, alu_op}
use agil_a.Core.Exec.{Core, Bus, reg, mem_size, load_value, exec}
use agil_a.Core.Meaning.{Fits, put, perform, IsEncodable}
use agil_a.Core.Encoded.Fields.{sign_extend-mask}
use agil_a.Core.Encoded.Formats.{
  exec_r, exec_imm, exec-load, exec_jalr, exec_u, exec_s, exec_ebreak,
}

-- A shift amount is what the core reads back, with bit 10 clear.
shift_fields :
    (n : ℕ)
    → n < 32
    → (mask 12 (pos n) / 1024 % 2 ≡ 0) × (sign_extend 12 (mask 12 (pos n)) % 32 ≡ n)
unfolding mask
shift_fields n h = (omega arith, ground arith)

-- With 0x400 in the immediate, bit 10 is set.
srai_fields :
    (n : ℕ)
    → n < 32
    → (mask 12 (pos (bit_or 0x400 n)) / 1024 % 2 ≡ 1)
      × (sign_extend 12 (mask 12 (pos (bit_or 0x400 n))) % 32 ≡ n)
unfolding mask
srai_fields n h = rw (bit_or_disjoint 10 0x400 n refl (omega arith)) (omega arith, ground arith)

module _ {M : Type 0} (bus : Bus M) (c : Core) (m : M) where
  -- An OP_IMM word with an immediate that fits.
  exec_fitting :
      (imm : ℤ) (rs1 funct3 rd : ℕ)
      → rs1 < 32
      → funct3 < 8
      → rd < 32
      → Fits imm
      → exec bus (i_word imm rs1 funct3 rd op_imm) c m ≡ (
        put c rd (alu (alu_op op_imm funct3 (mask 12 imm / 1024 % 2)) (reg c rs1) (mask 32 imm)),
        m,
      )
  exec_fitting imm rs1 funct3 rd h1 h3 hd fits =
      rw (← sign_extend-mask imm fits) (exec_imm bus c m imm rs1 funct3 rd h1 h3 hd)

-- The word that a method of `Asm` emits makes the core do what the instruction of the method's
-- name does: the same registers, the same bus accesses, the same next pc, and a halt for EBREAK.
-- Registers are x0 to x31, and an immediate that the method does not mask fits twelve bits.
pub exec-word :
    {M : Type 0} (bus : Bus M) (i : Instr) (c : Core) (m : M)
    → IsEncodable i
    → exec bus (word i) c m ≡ perform bus i c m
unfolding word perform alu alu_op mem_size load_value
exec-word bus (add rd rs1 rs2) c m (hd, h1, h2) =
    exec_r bus c m 0 rs2 rs1 0 rd (omega arith) h2 h1 (omega arith) hd
exec-word bus (sub rd rs1 rs2) c m (hd, h1, h2) =
    exec_r bus c m 0x20 rs2 rs1 0 rd (omega arith) h2 h1 (omega arith) hd
exec-word bus (sll rd rs1 rs2) c m (hd, h1, h2) =
    exec_r bus c m 0 rs2 rs1 1 rd (omega arith) h2 h1 (omega arith) hd
exec-word bus (slt rd rs1 rs2) c m (hd, h1, h2) =
    exec_r bus c m 0 rs2 rs1 2 rd (omega arith) h2 h1 (omega arith) hd
exec-word bus (sltu rd rs1 rs2) c m (hd, h1, h2) =
    exec_r bus c m 0 rs2 rs1 3 rd (omega arith) h2 h1 (omega arith) hd
exec-word bus (xor rd rs1 rs2) c m (hd, h1, h2) =
    exec_r bus c m 0 rs2 rs1 4 rd (omega arith) h2 h1 (omega arith) hd
exec-word bus (srl rd rs1 rs2) c m (hd, h1, h2) =
    exec_r bus c m 0 rs2 rs1 5 rd (omega arith) h2 h1 (omega arith) hd
exec-word bus (sra rd rs1 rs2) c m (hd, h1, h2) =
    exec_r bus c m 0x20 rs2 rs1 5 rd (omega arith) h2 h1 (omega arith) hd
exec-word bus (or rd rs1 rs2) c m (hd, h1, h2) =
    exec_r bus c m 0 rs2 rs1 6 rd (omega arith) h2 h1 (omega arith) hd
exec-word bus (and rd rs1 rs2) c m (hd, h1, h2) =
    exec_r bus c m 0 rs2 rs1 7 rd (omega arith) h2 h1 (omega arith) hd
exec-word bus (addi rd rs1 imm) c m (hd, h1, fits) =
    exec_fitting bus c m imm rs1 0 rd h1 (omega arith) hd fits
exec-word bus (slti rd rs1 imm) c m (hd, h1, fits) =
    exec_fitting bus c m imm rs1 2 rd h1 (omega arith) hd fits
exec-word bus (sltiu rd rs1 imm) c m (hd, h1, fits) =
    exec_fitting bus c m imm rs1 3 rd h1 (omega arith) hd fits
exec-word bus (xori rd rs1 imm) c m (hd, h1, fits) =
    exec_fitting bus c m imm rs1 4 rd h1 (omega arith) hd fits
exec-word bus (andi rd rs1 imm) c m (hd, h1, fits) =
    exec_fitting bus c m imm rs1 7 rd h1 (omega arith) hd fits
exec-word bus (ori rd rs1 imm) c m (hd, h1, fits) =
    exec_fitting bus c m imm rs1 6 rd h1 (omega arith) hd fits
exec-word bus (slli rd rs1 amount) c m (hd, h1) =
    let (e7, es) = shift_fields (mask 5 amount) (mask-lt 5 amount) in
    rw (exec_imm bus c m (pos (mask 5 amount)) rs1 1 rd h1 (omega arith) hd, es)
exec-word bus (srli rd rs1 amount) c m (hd, h1) =
    let (e7, es) = shift_fields (mask 5 amount) (mask-lt 5 amount) in
    rw (exec_imm bus c m (pos (mask 5 amount)) rs1 5 rd h1 (omega arith) hd, e7, es)
exec-word bus (srai rd rs1 amount) c m (hd, h1) =
    let (e7, es) = srai_fields (mask 5 amount) (mask-lt 5 amount) in
    rw (exec_imm bus c m (pos (bit_or 0x400 (mask 5 amount))) rs1 5 rd h1 (omega arith) hd, e7, es)
exec-word bus (lb rd rs1 imm) c m (hd, h1, fits) =
    exec-load bus c m imm rs1 0 rd h1 (omega arith) hd fits
exec-word bus (lh rd rs1 imm) c m (hd, h1, fits) =
    exec-load bus c m imm rs1 1 rd h1 (omega arith) hd fits
exec-word bus (lw rd rs1 imm) c m (hd, h1, fits) =
    exec-load bus c m imm rs1 2 rd h1 (omega arith) hd fits
exec-word bus (lbu rd rs1 imm) c m (hd, h1, fits) =
    exec-load bus c m imm rs1 4 rd h1 (omega arith) hd fits
exec-word bus (lhu rd rs1 imm) c m (hd, h1, fits) =
    exec-load bus c m imm rs1 5 rd h1 (omega arith) hd fits
exec-word bus (jalr rd rs1 imm) c m (hd, h1, fits) = exec_jalr bus c m imm rs1 rd h1 hd fits
exec-word bus (lui rd imm20) c m hd = (exec_u bus c m imm20 rd hd).0
exec-word bus (auipc rd imm20) c m hd = (exec_u bus c m imm20 rd hd).1
exec-word bus (sb rs2 rs1 imm) c m (h2, h1, fits) =
    exec_s bus c m 0 rs2 rs1 imm h2 h1 (omega arith) fits
exec-word bus (sw rs2 rs1 imm) c m (h2, h1, fits) =
    exec_s bus c m 2 rs2 rs1 imm h2 h1 (omega arith) fits
exec-word bus (sh rs2 rs1 imm) c m (h2, h1, fits) =
    exec_s bus c m 1 rs2 rs1 imm h2 h1 (omega arith) fits
exec-word bus ebreak c m h = exec_ebreak bus c m
