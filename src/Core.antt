-- ===== src/Core.antt =====
-- src/rv32i_core.v, the core that runs the assembled programs, one instruction at a time.
pub mod Decode
pub mod Alu
pub mod Exec
pub mod Meaning
pub mod Encoded
pub mod Runs
pub mod Invariant
pub mod Fsm
pub mod Examples
