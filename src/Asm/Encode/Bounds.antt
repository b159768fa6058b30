-- ===== src/Asm/Encode/Bounds.antt =====
-- The words of tools/asm_pineapple.py fit 32 bits when the registers are x0 to x31.
use agil_a.Common.{ℕ, ◌^◌, ◌<◌, arith}
use agil_a.Common.Int.{ℤ, mask-lt}
use agil_a.Asm.Encode.{word, addi, sw, jal_word}
use agil_a.Asm.Encode.Fields.{i_word_sum, s_word_sum, jal_word_sum}

pub addi-lt : (rd rs1 : ℕ) (imm : ℤ) → rd < 32 → rs1 < 32 → word (addi rd rs1 imm) < 2 ^ 32
unfolding word
addi-lt rd rs1 imm hd h1 =
    omega
      (arith, i_word_sum imm rs1 0 rd 0b0010011 h1 (omega arith) hd (omega arith), mask-lt 12 imm)

pub sw-lt : (rs2 rs1 : ℕ) (imm : ℤ) → rs2 < 32 → rs1 < 32 → word (sw rs2 rs1 imm) < 2 ^ 32
unfolding word
sw-lt rs2 rs1 imm h2 h1 =
    omega (arith, s_word_sum 0b010 rs2 rs1 imm h2 h1 (omega arith), mask-lt 12 imm)

pub jal_word-lt : (rd : ℕ) (off : ℤ) → rd < 32 → jal_word rd off < 2 ^ 32
jal_word-lt rd off hd = omega (arith, jal_word_sum rd off hd, mask-lt 21 off)
