-- ===== src/Core/Encoded/Formats.antt =====
-- One lemma for each format of instruction word, on the core of src/rv32i_core.v.
use agil_a.Common.{
  ℕ, ◌+◌, ◌-◌, ◌*◌, ◌/◌, ◌%◌, ◌^◌, ◌<◌, ◌≡◌, refl, arith, bit_and, true, if◌then◌else◌,
}
use agil_a.Common.Int.{ℤ, pos, mask}
use agil_a.Common.Bits.{bit_and_mask}
use agil_a.Common.Bits.Step.{bit_and_step}
use agil_a.Asm.Encode.{
  r_word, i_word, s_word, u_word, branch_word, jal_word, op_reg, op_imm, op_load, op_jalr, op_lui,
  op_auipc, op_system,
}
use agil_a.Core.Decode.{sign_extend}
use agil_a.Core.Alu.{alu, alu_op, branch_cond}
use agil_a.Core.Exec.{Core, Bus, reg, set_reg, mem_size, load_value, exec}
use agil_a.Core.Meaning.{Fits, put, offset, load, store}
use agil_a.Core.Encoded.Fields.{
  sign_extend-mask, r_fields, i_fields, s_fields, u_fields, branch_fields, jal_fields,
}

-- Clearing bit 0 of a byte.
and_0xfe : (v : ℕ) → v < 256 → bit_and v 0xFE ≡ v - v % 2
and_0xfe v h = omega (arith, bit_and_step v 0xFE, bit_and_mask 7 (v / 2))

module _ {M : Type 0} (bus : Bus M) (c : Core) (m : M) where
  pub exec_r :
      (funct7 rs2 rs1 funct3 rd : ℕ)
      → funct7 < 128
      → rs2 < 32
      → rs1 < 32
      → funct3 < 8
      → rd < 32
      → exec bus (r_word funct7 rs2 rs1 funct3 rd op_reg) c m
        ≡ (put c rd (alu (alu_op op_reg funct3 (funct7 / 32 % 2)) (reg c rs1) (reg c rs2)), m)
  unfolding exec
  exec_r funct7 rs2 rs1 funct3 rd h7 h2 h1 h3 hd =
      let (eo, ed, e1, e2, e3, e7) = r_fields funct7 rs2 rs1 funct3 rd h7 h2 h1 h3 hd in
      rw (eo, ed, e1, e2, e3, e7)

  -- OP_IMM, with the immediate as the core sign-extends it.
  pub exec_imm :
      (imm : ℤ) (rs1 funct3 rd : ℕ)
      → rs1 < 32
      → funct3 < 8
      → rd < 32
      → exec bus (i_word imm rs1 funct3 rd op_imm) c m ≡ (
        put c rd (
            alu
              (alu_op op_imm funct3 (mask 12 imm / 1024 % 2))
              (reg c rs1)
              (sign_extend 12 (mask 12 imm))),
        m,
      )
  unfolding exec
  exec_imm imm rs1 funct3 rd h1 h3 hd =
      let (eo, ed, e1, e3, e7, e12, ei) =
        i_fields imm rs1 funct3 rd op_imm h1 h3 hd (omega arith) in
      rw (eo, ed, e1, e3, e7, ei)

  pub exec-load :
      (imm : ℤ) (rs1 funct3 rd : ℕ)
      → rs1 < 32
      → funct3 < 8
      → rd < 32
      → Fits imm
      → exec bus (i_word imm rs1 funct3 rd op_load) c m
        ≡ load bus c m rd rs1 imm (mem_size funct3) (load_value funct3)
  unfolding exec
  exec-load imm rs1 funct3 rd h1 h3 hd fits =
      let (eo, ed, e1, e3, e7, e12, ei) =
        i_fields imm rs1 funct3 rd op_load h1 h3 hd (omega arith) in
      rw (eo, ed, e1, e3, ei, sign_extend-mask imm fits)

  pub exec_jalr :
      (imm : ℤ) (rs1 rd : ℕ)
      → rs1 < 32
      → rd < 32
      → Fits imm
      → exec bus (i_word imm rs1 0 rd op_jalr) c m ≡ (
        record (set_reg c rd (c.pc + 4)) {
          pc = offset c rs1 imm % 256 - offset c rs1 imm % 256 % 2;
        },
        m,
      )
  unfolding exec
  exec_jalr imm rs1 rd h1 hd fits =
      let (eo, ed, e1, e3, e7, e12, ei) =
        i_fields imm rs1 0 rd op_jalr h1 (omega arith) hd (omega arith) in
      let wrap : (reg c rs1 % 256 + mask 32 imm % 256) % 256 ≡ offset c rs1 imm % 256 =
        omega arith in
      rw (
        eo,
        ed,
        e1,
        ei,
        sign_extend-mask imm fits,
        wrap,
        and_0xfe (offset c rs1 imm % 256) (omega arith),
      )

  pub exec_u :
      (imm20 : ℤ) (rd : ℕ)
      → rd < 32
      → (exec bus (u_word imm20 rd op_lui) c m ≡ (put c rd (mask 20 imm20 * 2 ^ 12), m))
        × (exec bus (u_word imm20 rd op_auipc) c m
            ≡ (put c rd ((c.pc + mask 20 imm20 * 2 ^ 12) % 2 ^ 32), m))
  unfolding exec
  exec_u imm20 rd hd =
      let (eo, ed, eu) = u_fields imm20 rd op_lui hd (omega arith) in
      let (eo', ed', eu') = u_fields imm20 rd op_auipc hd (omega arith) in
      (rw (eo, ed, eu), rw (eo', ed', eu'))

  pub exec_s :
      (funct3 rs2 rs1 : ℕ) (imm : ℤ)
      → rs2 < 32
      → rs1 < 32
      → funct3 < 8
      → Fits imm
      → exec bus (s_word funct3 rs2 rs1 imm) c m ≡ store bus c m rs2 rs1 imm (mem_size funct3)
  unfolding exec
  exec_s funct3 rs2 rs1 imm h2 h1 h3 fits =
      let (eo, e1, e2, e3, es) = s_fields funct3 rs2 rs1 imm h2 h1 h3 in
      rw (eo, e1, e2, e3, es, sign_extend-mask imm fits)

  pub exec_ebreak : exec bus (i_word (pos 1) 0 0 0 op_system) c m ≡ (record c { halted = true }, m)
  unfolding exec i_word mask
  exec_ebreak = refl

  pub exec_branch :
      (funct3 rs1 rs2 : ℕ) (off : ℤ)
      → rs1 < 32
      → rs2 < 32
      → funct3 < 8
      → mask 13 off % 2 ≡ 0
      → exec bus (branch_word funct3 rs1 rs2 off) c m ≡ (
        record c {
          pc =
              if branch_cond funct3 (reg c rs1) (reg c rs2)
              then (c.pc + mask 13 off % 256) % 256
              else (c.pc + 4) % 256;
        },
        m,
      )
  unfolding exec
  exec_branch funct3 rs1 rs2 off h1 h2 h3 even =
      let (eo, e1, e2, e3, eb) = branch_fields funct3 rs1 rs2 off h1 h2 h3 even in
      rw (eo, e1, e2, e3, eb)

  pub exec_jal :
      (rd : ℕ) (off : ℤ)
      → rd < 32
      → mask 21 off % 2 ≡ 0
      → exec bus (jal_word rd off) c m
        ≡ (record (set_reg c rd (c.pc + 4)) { pc = (c.pc + mask 21 off % 256) % 256 }, m)
  unfolding exec
  exec_jal rd off hd even = let (eo, ed, ej) = jal_fields rd off hd even in rw (eo, ed, ej)
