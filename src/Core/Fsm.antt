-- ===== src/Core/Fsm.antt =====
-- src/rv32i_core.v, clock edge by clock edge: the state machine of the core, and the memory behind its
-- bus port.

pub mod WriteBack
pub mod Invariant
pub mod Refines
pub mod Rounds
pub mod Progress
pub mod Examples
use agil_a.Common.{ℕ, suc, ◌%◌, ◌+◌, ◌^◌, bit_and, Bool, true, false, ◌&&◌, ◌==◌, if◌then◌else◌}
use agil_a.Asm.Encode.{op_load, op_store, op_lui, op_auipc, op_jal, op_jalr, op_imm, op_reg}
use agil_a.Core.Decode.{Fields, decode, is_ebreak}
use agil_a.Core.Exec.{Core, Bus, reg, mem_size, load_value, next_pc, alu_y}

-- `state`: the eight values of its three bits, so that the `default` arm has none left.
pub data State : Type 0 where
  fetch : State
  fetch_wait : State
  decoding : State
  executing : State
  mem : State
  mem_wait : State
  wb : State
  parked : State

-- The registers of the module.
pub record Fsm : Type 0 where
  pub state : State
  pub pc : ℕ
  pub regs : ℕ → ℕ
  pub ir : ℕ
  pub alu_result : ℕ
  pub next : ℕ
  pub mem_addr : ℕ
  pub mem_wdata : ℕ
  pub size : ℕ
  pub mem_we : Bool
  pub mem_valid : Bool

-- What the combinational wires see of the registers.
abbrev pub core : Fsm → Core
core s = record { pc = s.pc; regs = s.regs; halted = false }

-- `regs[rd]` in ST_WB.
unfoldable pub wb_regs : Fields → ℕ → Fsm → ℕ → ℕ
unfolding load_value
wb_regs f rdata s r =
    if f.rd == 0
    then s.regs r
    else if r == f.rd
    then if f.opcode == op_lui
      then f.imm_u
      else if f.opcode == op_auipc
      then (s.pc + f.imm_u) % 2 ^ 32
      else if f.opcode == op_jal
      then s.pc + 4
      else if f.opcode == op_jalr
      then s.pc + 4
      else if f.opcode == op_load
      then load_value f.funct3 rdata
      else if f.opcode == op_imm
      then s.alu_result
      else if f.opcode == op_reg
      then s.alu_result
      else s.regs r
    else s.regs r

-- The edge in each state, by the wires `mem_ready` and `mem_rdata`.
unfoldable pub clock_in : State → Bool → ℕ → Fsm → Fsm
unfolding decode is_ebreak alu_y next_pc mem_size reg wb_regs
clock_in fetch ready rdata s = record s {
  mem_addr = s.pc;
  mem_we = false;
  size = 2;
  mem_valid = true;
  state = fetch_wait;
}
clock_in fetch_wait ready rdata s =
    if ready then record s { mem_valid = false; state = decoding } else s
clock_in decoding ready rdata s = record s { ir = rdata; state = executing }
clock_in executing ready rdata s =
    let f = decode s.ir in
    if is_ebreak f
    then record s { mem_we = false; mem_valid = false; state = parked }
    else record s { alu_result = alu_y f (core s); next = next_pc f (core s); state = mem }
clock_in mem ready rdata s =
    let f = decode s.ir in
    if f.opcode == op_load
    then record s {
      mem_addr = alu_y f (core s) % 256;
      mem_we = false;
      size = mem_size f.funct3;
      mem_valid = true;
      state = mem_wait;
    }
    else if f.opcode == op_store
    then record s {
      mem_addr = alu_y f (core s) % 256;
      mem_wdata = reg (core s) f.rs2;
      mem_we = true;
      size = mem_size f.funct3;
      mem_valid = true;
      state = mem_wait;
    }
    else record s { mem_we = false; mem_valid = false; state = mem_wait }
clock_in mem_wait ready rdata s =
    if ready then record s { mem_valid = false; mem_we = false; state = wb } else s
clock_in wb ready rdata s = record s {
  mem_we = false;
  regs = wb_regs (decode s.ir) rdata s;
  pc = s.next;
  state = fetch;
}
clock_in parked ready rdata s = record s { mem_valid = false; mem_we = false; state = parked }

-- `posedge clk` with `rst_n` high, and `rst_n` low.
abbrev pub clock : Bool → ℕ → Fsm → Fsm
clock ready rdata s = clock_in s.state ready rdata s

abbrev pub reset : Fsm → Fsm
reset s = record s {
  state = fetch;
  pc = 0;
  ir = 0;
  mem_we = false;
  mem_addr = 0;
  size = 2;
  mem_wdata = 0;
  mem_valid = false;
}

-- The memory behind the port, and what it drives `mem_rdata` with.
pub record World (M : Type 0) : Type 0 where
  pub memory : M
  pub rdata : ℕ

-- `mem_ready`, and what `mem_rdata` is when no access has just completed.
pub record Input : Type 0 where
  pub ready : Bool
  pub noise : ℕ

module _ {M : Type 0} (bus : Bus M) where
  -- An access completes at the edge that sees `mem_valid` and `mem_ready`.
  unfoldable pub access : Input → Fsm → World M → World M
  access i s w =
      if s.mem_valid && i.ready
      then if s.mem_we
        then record { memory = bus.write w.memory s.mem_addr s.size s.mem_wdata; rdata = i.noise }
        else record {
          memory = (bus.read w.memory s.mem_addr s.size).1;
          rdata = (bus.read w.memory s.mem_addr s.size).0;
        }
      else record { memory = w.memory; rdata = i.noise }

  -- One clock of the core and the memory.
  unfoldable pub cycle : Input → Fsm × World M → Fsm × World M
  unfolding access clock_in
  cycle i (s, w) = (clock i.ready w.rdata s, access i s w)

  -- The clocks between two times.
  pub data Cycles (inputs : ℕ → Input) : ℕ → Fsm × World M → ℕ → Fsm × World M → Type 0 where
    still : {t : ℕ} {x : Fsm × World M} → Cycles inputs t x t x
    tick :
        {t u : ℕ} {x y : Fsm × World M}
        → Cycles inputs (suc t) (cycle (inputs t) x) u y
        → Cycles inputs t x u y
