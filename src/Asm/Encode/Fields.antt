-- ===== src/Asm/Encode/Fields.antt =====
-- The words of tools/asm_pineapple.py as sums of their fields: with every register below 32 the
-- fields do not overlap, so each `|` adds.
use agil_a.Common.{ℕ, ◌+◌, ◌*◌, ◌/◌, ◌%◌, ◌^◌, ◌<◌, ◌≡◌, refl, arith}
use agil_a.Common.Int.{ℤ, mask, mask-lt}
use agil_a.Common.Bits.{◌<<<◌, ◌|||◌, bit_or_disjoint, bit_and_mask}
use agil_a.Asm.Encode.{
  op_store, op_branch, op_jal, r_word, i_word, u_word, s_word, branch_word, jal_word,
}

-- The two lowest fields under whatever stands above them.
tail_fields :
    (hi rd opcode : ℕ)
    → hi % 2 ^ 12 ≡ 0
    → rd < 32
    → opcode < 128
    → (hi ||| rd <<< 7 ||| opcode) ≡ hi + rd * 2 ^ 7 + opcode
tail_fields hi rd opcode h hd ho =
    rw
      (
        bit_or_disjoint 12 hi (rd * 2 ^ 7) h (omega arith),
        bit_or_disjoint 7 (hi + rd * 2 ^ 7) opcode (omega arith) (omega arith),
      )
      refl

-- The four lowest fields of the formats with rs1 and funct3.
low_fields :
    (hi rs1 funct3 rd opcode : ℕ)
    → hi % 2 ^ 20 ≡ 0
    → rs1 < 32
    → funct3 < 8
    → rd < 32
    → opcode < 128
    → (hi ||| rs1 <<< 15 ||| funct3 <<< 12 ||| rd <<< 7 ||| opcode)
      ≡ hi + rs1 * 2 ^ 15 + funct3 * 2 ^ 12 + rd * 2 ^ 7 + opcode
low_fields hi rs1 funct3 rd opcode h h1 h3 hd ho =
    rw
      (
        bit_or_disjoint 20 hi (rs1 * 2 ^ 15) h (omega arith),
        bit_or_disjoint 15 (hi + rs1 * 2 ^ 15) (funct3 * 2 ^ 12) (omega arith) (omega arith),
      )
      (tail_fields (hi + rs1 * 2 ^ 15 + funct3 * 2 ^ 12) rd opcode (omega arith) hd ho)

pub r_word_sum :
    (funct7 rs2 rs1 funct3 rd opcode : ℕ)
    → rs2 < 32
    → rs1 < 32
    → funct3 < 8
    → rd < 32
    → opcode < 128
    → r_word funct7 rs2 rs1 funct3 rd opcode
      ≡ funct7 * 2 ^ 25 + rs2 * 2 ^ 20 + rs1 * 2 ^ 15 + funct3 * 2 ^ 12 + rd * 2 ^ 7 + opcode
unfolding r_word
r_word_sum funct7 rs2 rs1 funct3 rd opcode h2 h1 h3 hd ho =
    rw (bit_or_disjoint 25 (funct7 * 2 ^ 25) (rs2 * 2 ^ 20) (omega arith) (omega arith))
      (low_fields (funct7 * 2 ^ 25 + rs2 * 2 ^ 20) rs1 funct3 rd opcode (omega arith) h1 h3 hd ho)

pub i_word_sum :
    (imm : ℤ) (rs1 funct3 rd opcode : ℕ)
    → rs1 < 32
    → funct3 < 8
    → rd < 32
    → opcode < 128
    → i_word imm rs1 funct3 rd opcode
      ≡ mask 12 imm * 2 ^ 20 + rs1 * 2 ^ 15 + funct3 * 2 ^ 12 + rd * 2 ^ 7 + opcode
unfolding i_word
i_word_sum imm rs1 funct3 rd opcode h1 h3 hd ho =
    low_fields (mask 12 imm * 2 ^ 20) rs1 funct3 rd opcode (omega arith) h1 h3 hd ho

pub u_word_sum :
    (imm20 : ℤ) (rd opcode : ℕ)
    → rd < 32
    → opcode < 128
    → u_word imm20 rd opcode ≡ mask 20 imm20 * 2 ^ 12 + rd * 2 ^ 7 + opcode
unfolding u_word
u_word_sum imm20 rd opcode hd ho =
    tail_fields (mask 20 imm20 * 2 ^ 12) rd opcode (omega arith) hd ho

pub s_word_sum :
    (funct3 rs2 rs1 : ℕ) (v : ℤ)
    → rs2 < 32
    → rs1 < 32
    → funct3 < 8
    → s_word funct3 rs2 rs1 v
      ≡ mask 12 v / 32 * 2 ^ 25
        + rs2 * 2 ^ 20
        + rs1 * 2 ^ 15
        + funct3 * 2 ^ 12
        + mask 12 v % 32 * 2 ^ 7
        + op_store
unfolding s_word
s_word_sum funct3 rs2 rs1 v h2 h1 h3 =
    rw
      (
        bit_and_mask 5 (mask 12 v),
        bit_or_disjoint 25 (mask 12 v / 32 * 2 ^ 25) (rs2 * 2 ^ 20) (omega arith) (omega arith),
      )
      (low_fields (mask 12 v / 32 * 2 ^ 25 + rs2 * 2 ^ 20) rs1 funct3 (mask 12 v % 32) op_store
        (omega arith) h1 h3 (omega arith) (omega arith))

pub branch_word_sum :
    (funct3 rs1 rs2 : ℕ) (off : ℤ)
    → rs1 < 32
    → rs2 < 32
    → funct3 < 8
    → let imm = mask 13 off in
      branch_word funct3 rs1 rs2 off
      ≡ imm / 2 ^ 12 * 2 ^ 31
        + imm / 2 ^ 5 % 2 ^ 6 * 2 ^ 25
        + rs2 * 2 ^ 20
        + rs1 * 2 ^ 15
        + funct3 * 2 ^ 12
        + imm / 2 % 2 ^ 4 * 2 ^ 8
        + imm / 2 ^ 11 % 2 * 2 ^ 7
        + op_branch
unfolding branch_word
branch_word_sum funct3 rs1 rs2 off h1 h2 h3 =
    let imm = mask 13 off in
    let top : imm / 2 ^ 12 % 2 ≡ imm / 2 ^ 12 = omega (arith, mask-lt 13 off) in
    let hi = imm / 2 ^ 12 * 2 ^ 31 + imm / 2 ^ 5 % 2 ^ 6 * 2 ^ 25 in
    let mid = hi + rs2 * 2 ^ 20 + rs1 * 2 ^ 15 in
    let low = mid + funct3 * 2 ^ 12 in
    rw
      (
        bit_and_mask 1 (imm / 2 ^ 12),
        top,
        bit_and_mask 6 (imm / 2 ^ 5),
        bit_and_mask 4 (imm / 2 ^ 1),
        bit_and_mask 1 (imm / 2 ^ 11),
        bit_or_disjoint 31 (imm / 2 ^ 12 * 2 ^ 31) (imm / 2 ^ 5 % 2 ^ 6 * 2 ^ 25) (omega arith)
            (omega arith),
        bit_or_disjoint 25 hi (rs2 * 2 ^ 20) (omega arith) (omega arith),
        bit_or_disjoint 20 (hi + rs2 * 2 ^ 20) (rs1 * 2 ^ 15) (omega arith) (omega arith),
        bit_or_disjoint 15 mid (funct3 * 2 ^ 12) (omega arith) (omega arith),
        bit_or_disjoint 12 low (imm / 2 ^ 1 % 2 ^ 4 * 2 ^ 8) (omega arith) (omega arith),
        bit_or_disjoint 8 (low + imm / 2 ^ 1 % 2 ^ 4 * 2 ^ 8) (imm / 2 ^ 11 % 2 ^ 1 * 2 ^ 7)
            (omega arith) (omega arith),
        bit_or_disjoint 7 (low + imm / 2 ^ 1 % 2 ^ 4 * 2 ^ 8 + imm / 2 ^ 11 % 2 ^ 1 * 2 ^ 7)
            op_branch (omega arith) (omega arith),
      )
      refl

pub jal_word_sum :
    (rd : ℕ) (off : ℤ)
    → rd < 32
    → let imm = mask 21 off in
      jal_word rd off
      ≡ imm / 2 ^ 20 * 2 ^ 31
        + imm / 2 % 2 ^ 10 * 2 ^ 21
        + imm / 2 ^ 11 % 2 * 2 ^ 20
        + imm / 2 ^ 12 % 2 ^ 8 * 2 ^ 12
        + rd * 2 ^ 7
        + op_jal
unfolding jal_word
jal_word_sum rd off hd =
    let imm = mask 21 off in
    let top : imm / 2 ^ 20 % 2 ≡ imm / 2 ^ 20 = omega (arith, mask-lt 21 off) in
    let hi = imm / 2 ^ 20 * 2 ^ 31 + imm / 2 ^ 1 % 2 ^ 10 * 2 ^ 21 in
    let mid = hi + imm / 2 ^ 11 % 2 ^ 1 * 2 ^ 20 in
    rw
      (
        bit_and_mask 1 (imm / 2 ^ 20),
        top,
        bit_and_mask 10 (imm / 2 ^ 1),
        bit_and_mask 1 (imm / 2 ^ 11),
        bit_and_mask 8 (imm / 2 ^ 12),
        bit_or_disjoint 31 (imm / 2 ^ 20 * 2 ^ 31) (imm / 2 ^ 1 % 2 ^ 10 * 2 ^ 21) (omega arith)
            (omega arith),
        bit_or_disjoint 21 hi (imm / 2 ^ 11 % 2 ^ 1 * 2 ^ 20) (omega arith) (omega arith),
        bit_or_disjoint 20 mid (imm / 2 ^ 12 % 2 ^ 8 * 2 ^ 12) (omega arith) (omega arith),
      )
      (tail_fields (mid + imm / 2 ^ 12 % 2 ^ 8 * 2 ^ 12) rd op_jal (omega arith) hd (omega arith))
