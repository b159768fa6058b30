-- ===== src/Core/Decode.antt =====
-- src/rv32i_core.v: the fields of a fetched instruction word and its immediates. A wire of `w` bits
-- is a number below `2 ^ w`.
use agil_a.Common.{ℕ, ◌+◌, ◌-◌, ◌*◌, ◌/◌, ◌%◌, ◌^◌, Bool, ltb, ◌==◌, ◌&&◌, if◌then◌else◌}
use agil_a.Asm.Encode.{op_system}

-- `ir[hi:lo]`
abbrev pub slice : ℕ → ℕ → ℕ → ℕ
slice hi lo ir = ir / 2 ^ lo % 2 ^ (hi - lo + 1)

-- `{{(32-k){v[k-1]}}, v}` for `v` of `k` bits.
abbrev pub sign_extend : ℕ → ℕ → ℕ
sign_extend k v = if ltb v (2 ^ (k - 1)) then v else v + 2 ^ 32 - 2 ^ k

-- The wires that the later stages read.
pub record Fields : Type 0 where
  pub opcode : ℕ
  pub rd : ℕ
  pub rs1 : ℕ
  pub rs2 : ℕ
  pub funct3 : ℕ
  pub funct7_b5 : ℕ
  pub imm12 : ℕ
  pub imm_i : ℕ
  pub imm_s : ℕ
  pub imm_u : ℕ
  pub imm_b : ℕ
  pub imm_j : ℕ

unfoldable pub decode : ℕ → Fields
decode ir = record {
  opcode = slice 6 0 ir;
  rd = slice 11 7 ir;
  rs1 = slice 19 15 ir;
  rs2 = slice 24 20 ir;
  funct3 = slice 14 12 ir;
  funct7_b5 = slice 30 30 ir;
  imm12 = slice 31 20 ir;
  imm_i = sign_extend 12 (slice 31 20 ir);
  imm_s = sign_extend 12 (slice 31 25 ir * 2 ^ 5 + slice 11 7 ir);
  imm_u = slice 31 12 ir * 2 ^ 12;
  imm_b = slice 27 25 ir * 2 ^ 5 + slice 11 8 ir * 2;
  imm_j = slice 27 21 ir * 2;
}

-- `is_ebreak`
unfoldable pub is_ebreak : Fields → Bool
is_ebreak f = f.opcode == op_system && f.funct3 == 0b000 && f.imm12 == 0x001
