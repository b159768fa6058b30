-- ===== src/Core/Meaning.antt =====
-- What each method of tools/asm_pineapple.py's `Asm` stands for: the RV32I instruction of its name,
-- on the registers and the bus of the core. This is the specification that the encoded words meet.
use agil_a.Common.{
  ℕ, ◌+◌, ◌-◌, ◌*◌, ◌/◌, ◌%◌, ◌^◌, ◌<◌, bit_and, bit_or, bit_xor, true, ltb, if◌then◌else◌,
}
use agil_a.Common.Int.{ℤ, pos, neg, mask, signed, ltb_ℤ, ◌≤ℤ◌, ◌<ℤ◌}
use agil_a.Asm.Encode.{
  Instr, add, sub, sll, slt, sltu, xor, srl, sra, or, and, addi, slti, sltiu, xori, andi, ori, slli,
  srli, srai, lb, lh, lw, lbu, lhu, jalr, lui, auipc, sb, sw, sh, ebreak,
}
use agil_a.Core.Decode.{sign_extend}
use agil_a.Core.Exec.{Core, Bus, reg, set_reg}

-- An immediate that twelve bits hold.
abbrev pub Fits : ℤ → Type 0
Fits imm = (neg 2048 ≤ℤ imm) × (imm <ℤ pos 2048)

-- The operands that the instruction's fields can hold: registers x0 to x31, and a 12-bit immediate
-- where the method does not mask it.
abbrev pub IsEncodable : Instr → Type 0
IsEncodable (add rd rs1 rs2) = (rd < 32) × (rs1 < 32) × (rs2 < 32)
IsEncodable (sub rd rs1 rs2) = (rd < 32) × (rs1 < 32) × (rs2 < 32)
IsEncodable (sll rd rs1 rs2) = (rd < 32) × (rs1 < 32) × (rs2 < 32)
IsEncodable (slt rd rs1 rs2) = (rd < 32) × (rs1 < 32) × (rs2 < 32)
IsEncodable (sltu rd rs1 rs2) = (rd < 32) × (rs1 < 32) × (rs2 < 32)
IsEncodable (xor rd rs1 rs2) = (rd < 32) × (rs1 < 32) × (rs2 < 32)
IsEncodable (srl rd rs1 rs2) = (rd < 32) × (rs1 < 32) × (rs2 < 32)
IsEncodable (sra rd rs1 rs2) = (rd < 32) × (rs1 < 32) × (rs2 < 32)
IsEncodable (or rd rs1 rs2) = (rd < 32) × (rs1 < 32) × (rs2 < 32)
IsEncodable (and rd rs1 rs2) = (rd < 32) × (rs1 < 32) × (rs2 < 32)
IsEncodable (addi rd rs1 imm) = (rd < 32) × (rs1 < 32) × Fits imm
IsEncodable (slti rd rs1 imm) = (rd < 32) × (rs1 < 32) × Fits imm
IsEncodable (sltiu rd rs1 imm) = (rd < 32) × (rs1 < 32) × Fits imm
IsEncodable (xori rd rs1 imm) = (rd < 32) × (rs1 < 32) × Fits imm
IsEncodable (andi rd rs1 imm) = (rd < 32) × (rs1 < 32) × Fits imm
IsEncodable (ori rd rs1 imm) = (rd < 32) × (rs1 < 32) × Fits imm
IsEncodable (slli rd rs1 amount) = (rd < 32) × (rs1 < 32)
IsEncodable (srli rd rs1 amount) = (rd < 32) × (rs1 < 32)
IsEncodable (srai rd rs1 amount) = (rd < 32) × (rs1 < 32)
IsEncodable (lb rd rs1 imm) = (rd < 32) × (rs1 < 32) × Fits imm
IsEncodable (lh rd rs1 imm) = (rd < 32) × (rs1 < 32) × Fits imm
IsEncodable (lw rd rs1 imm) = (rd < 32) × (rs1 < 32) × Fits imm
IsEncodable (lbu rd rs1 imm) = (rd < 32) × (rs1 < 32) × Fits imm
IsEncodable (lhu rd rs1 imm) = (rd < 32) × (rs1 < 32) × Fits imm
IsEncodable (jalr rd rs1 imm) = (rd < 32) × (rs1 < 32) × Fits imm
IsEncodable (lui rd imm20) = rd < 32
IsEncodable (auipc rd imm20) = rd < 32
IsEncodable (sb rs2 rs1 imm) = (rs2 < 32) × (rs1 < 32) × Fits imm
IsEncodable (sw rs2 rs1 imm) = (rs2 < 32) × (rs1 < 32) × Fits imm
IsEncodable (sh rs2 rs1 imm) = (rs2 < 32) × (rs1 < 32) × Fits imm
IsEncodable ebreak = Unit

-- On to the next instruction.
abbrev pub advance : Core → Core
advance c = record c { pc = (c.pc + 4) % 256 }

-- `v` into rd, then on.
abbrev pub put : Core → ℕ → ℕ → Core
put c rd v = record (set_reg c rd v) { pc = (c.pc + 4) % 256 }

-- rs1 plus the immediate, as 32 bits.
abbrev pub offset : Core → ℕ → ℤ → ℕ
offset c rs1 imm = (reg c rs1 + mask 32 imm) % 2 ^ 32

-- `a >> k` of the signed number that `a` stands for, rounded down.
abbrev pub arithmetic_shift : ℕ → ℕ → ℕ
arithmetic_shift a k = if ltb a (2 ^ 31) then a / 2 ^ k else 2 ^ 32 - 1 - (2 ^ 32 - 1 - a) / 2 ^ k

module _ {M : Type 0} (bus : Bus M) where
  -- A load of `size` from the low eight bits of the address, and its value by `extend`.
  abbrev pub load : Core → M → ℕ → ℕ → ℤ → ℕ → (ℕ → ℕ) → Core × M
  load c m rd rs1 imm size extend =
      let (v, m') = bus.read m (offset c rs1 imm % 256) size in (put c rd (extend v), m')

  abbrev pub store : Core → M → ℕ → ℕ → ℤ → ℕ → Core × M
  store c m rs2 rs1 imm size = (advance c, bus.write m (offset c rs1 imm % 256) size (reg c rs2))

  unfoldable pub perform : Instr → Core → M → Core × M
  unfolding reg set_reg mask signed
  perform (add rd rs1 rs2) c m = (put c rd ((reg c rs1 + reg c rs2) % 2 ^ 32), m)
  perform (sub rd rs1 rs2) c m = (put c rd ((reg c rs1 + 2 ^ 32 - reg c rs2) % 2 ^ 32), m)
  perform (sll rd rs1 rs2) c m = (put c rd (reg c rs1 * 2 ^ (reg c rs2 % 32) % 2 ^ 32), m)
  perform (slt rd rs1 rs2) c m =
      (put c rd (if ltb_ℤ (signed 32 (reg c rs1)) (signed 32 (reg c rs2)) then 1 else 0), m)
  perform (sltu rd rs1 rs2) c m = (put c rd (if ltb (reg c rs1) (reg c rs2) then 1 else 0), m)
  perform (xor rd rs1 rs2) c m = (put c rd (bit_xor (reg c rs1) (reg c rs2)), m)
  perform (srl rd rs1 rs2) c m = (put c rd (reg c rs1 / 2 ^ (reg c rs2 % 32)), m)
  perform (sra rd rs1 rs2) c m = (put c rd (arithmetic_shift (reg c rs1) (reg c rs2 % 32)), m)
  perform (or rd rs1 rs2) c m = (put c rd (bit_or (reg c rs1) (reg c rs2)), m)
  perform (and rd rs1 rs2) c m = (put c rd (bit_and (reg c rs1) (reg c rs2)), m)
  perform (addi rd rs1 imm) c m = (put c rd (offset c rs1 imm), m)
  perform (slti rd rs1 imm) c m =
      (put c rd (if ltb_ℤ (signed 32 (reg c rs1)) (signed 32 (mask 32 imm)) then 1 else 0), m)
  perform (sltiu rd rs1 imm) c m = (put c rd (if ltb (reg c rs1) (mask 32 imm) then 1 else 0), m)
  perform (xori rd rs1 imm) c m = (put c rd (bit_xor (reg c rs1) (mask 32 imm)), m)
  perform (andi rd rs1 imm) c m = (put c rd (bit_and (reg c rs1) (mask 32 imm)), m)
  perform (ori rd rs1 imm) c m = (put c rd (bit_or (reg c rs1) (mask 32 imm)), m)
  perform (slli rd rs1 amount) c m = (put c rd (reg c rs1 * 2 ^ mask 5 amount % 2 ^ 32), m)
  perform (srli rd rs1 amount) c m = (put c rd (reg c rs1 / 2 ^ mask 5 amount), m)
  perform (srai rd rs1 amount) c m = (put c rd (arithmetic_shift (reg c rs1) (mask 5 amount)), m)
  perform (lb rd rs1 imm) c m = load c m rd rs1 imm 0 (λ v. sign_extend 8 (v % 2 ^ 8))
  perform (lh rd rs1 imm) c m = load c m rd rs1 imm 1 (λ v. sign_extend 16 (v % 2 ^ 16))
  perform (lw rd rs1 imm) c m = load c m rd rs1 imm 2 (λ v. v)
  perform (lbu rd rs1 imm) c m = load c m rd rs1 imm 0 (λ v. v % 2 ^ 8)
  perform (lhu rd rs1 imm) c m = load c m rd rs1 imm 1 (λ v. v % 2 ^ 16)
  perform (jalr rd rs1 imm) c m =
      let target = offset c rs1 imm % 256 in
      (record (set_reg c rd (c.pc + 4)) { pc = target - target % 2 }, m)
  perform (lui rd imm20) c m = (put c rd (mask 20 imm20 * 2 ^ 12), m)
  perform (auipc rd imm20) c m = (put c rd ((c.pc + mask 20 imm20 * 2 ^ 12) % 2 ^ 32), m)
  perform (sb rs2 rs1 imm) c m = store c m rs2 rs1 imm 0
  perform (sw rs2 rs1 imm) c m = store c m rs2 rs1 imm 2
  perform (sh rs2 rs1 imm) c m = store c m rs2 rs1 imm 1
  perform ebreak c m = (record c { halted = true }, m)
