-- ===== src/Core/Exec.antt =====
-- src/rv32i_core.v: what one instruction does, from its fetched word to the next fetch. The FSM's
-- wait states only delay it (Core.Fsm), so a step here is one round of the FSM.
use agil_a.Common.{ℕ, ◌+◌, ◌%◌, ◌^◌, bit_and, Bool, true, ◌==◌, if◌then◌else◌}
use agil_a.Asm.Encode.{
  op_imm, op_reg, op_load, op_store, op_branch, op_jal, op_jalr, op_lui, op_auipc,
}
use agil_a.Core.Decode.{Fields, decode, is_ebreak, sign_extend}
use agil_a.Core.Alu.{alu, alu_op, branch_cond}

-- `pc`, `regs` and whether `state` is `ST_HALTED`.
pub record Core : Type 0 where
  pub pc : ℕ
  pub regs : ℕ → ℕ
  pub halted : Bool

-- The memory bus: a read may change what stands behind it, and sizes are 0, 1, 2 as `mem_size`.
pub record Bus (M : Type 0) : Type 0 where
  pub read : M → ℕ → ℕ → ℕ × M
  pub write : M → ℕ → ℕ → ℕ → M

-- `rs1_val` and `rs2_val`: x0 reads 0.
unfoldable pub reg : Core → ℕ → ℕ
reg c r = if r == 0 then 0 else c.regs r

-- `if (rd != 5'd0) regs[rd] <= v`
unfoldable pub set_reg : Core → ℕ → ℕ → Core
set_reg c rd v = if rd == 0 then c else record c { regs = λ r. if r == rd then v else c.regs r }

-- `mem_size` from the two low bits of funct3.
unfoldable pub mem_size : ℕ → ℕ
mem_size funct3 = if funct3 % 4 == 0 then 0 else if funct3 % 4 == 1 then 1 else 2

-- What a load writes back.
unfoldable pub load_value : ℕ → ℕ → ℕ
load_value funct3 rdata =
    if funct3 == 0b000
    then sign_extend 8 (rdata % 2 ^ 8)
    else if funct3 == 0b001
    then sign_extend 16 (rdata % 2 ^ 16)
    else if funct3 == 0b100
    then rdata % 2 ^ 8
    else if funct3 == 0b101
    then rdata % 2 ^ 16
    else rdata

-- `next_pc`
unfoldable pub next_pc : Fields → Core → ℕ
unfolding reg branch_cond
next_pc f c =
    if f.opcode == op_jal
    then (c.pc + f.imm_j) % 256
    else if f.opcode == op_jalr
    then bit_and ((reg c f.rs1 % 256 + f.imm_i % 256) % 256) 0xFE
    else if f.opcode == op_branch
    then if branch_cond f.funct3 (reg c f.rs1) (reg c f.rs2)
      then (c.pc + f.imm_b) % 256
      else (c.pc + 4) % 256
    else (c.pc + 4) % 256

-- `alu_y`, with `alu_b` chosen by the opcode.
unfoldable pub alu_y : Fields → Core → ℕ
unfolding reg alu alu_op
alu_y f c = alu (alu_op f.opcode f.funct3 f.funct7_b5) (reg c f.rs1) (
    if f.opcode == op_imm
    then f.imm_i
    else if f.opcode == op_load
    then f.imm_i
    else if f.opcode == op_store
    then f.imm_s
    else reg c f.rs2)

-- The value of `ST_WB` for an opcode that writes rd from the core alone.
unfoldable pub write_back : Fields → Core → Core
unfolding set_reg alu_y
write_back f c =
    if f.opcode == op_lui
    then set_reg c f.rd f.imm_u
    else if f.opcode == op_auipc
    then set_reg c f.rd ((c.pc + f.imm_u) % 2 ^ 32)
    else if f.opcode == op_jal
    then set_reg c f.rd (c.pc + 4)
    else if f.opcode == op_jalr
    then set_reg c f.rd (c.pc + 4)
    else if f.opcode == op_imm
    then set_reg c f.rd (alu_y f c)
    else if f.opcode == op_reg
    then set_reg c f.rd (alu_y f c)
    else c

module _ {M : Type 0} (bus : Bus M) where
  -- ST_EXEC to ST_WB for the latched instruction.
  unfoldable pub exec_fields : Fields → Core → M → Core × M
  unfolding is_ebreak next_pc alu_y write_back mem_size load_value
  exec_fields f c m =
      if is_ebreak f
      then (record c { halted = true }, m)
      else if f.opcode == op_load
      then (let (rdata, m') = bus.read m (alu_y f c % 256) (mem_size f.funct3) in
          (record (set_reg c f.rd (load_value f.funct3 rdata)) { pc = next_pc f c }, m'))
      else if f.opcode == op_store
      then (
        record c { pc = next_pc f c },
        bus.write m (alu_y f c % 256) (mem_size f.funct3) (reg c f.rs2),
      )
      else (record (write_back f c) { pc = next_pc f c }, m)

  unfoldable pub exec : ℕ → Core → M → Core × M
  unfolding exec_fields decode
  exec ir c m = exec_fields (decode ir) c m

  -- One round of the FSM: a halted core stays as it is, another fetches and executes.
  unfoldable pub step : Core × M → Core × M
  unfolding exec
  step (c, m) = if c.halted then (c, m) else let (ir, m') = bus.read m c.pc 2 in exec ir c m'
