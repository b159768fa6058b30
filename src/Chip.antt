-- ===== src/Chip.antt =====
-- The core of src/rv32i_core.v on the memory map of src/mem.v, with a program in flash.
pub mod Memory
pub mod Run
pub mod Image
pub mod Landing
pub mod Window
pub mod Examples
