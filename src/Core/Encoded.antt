-- ===== src/Core/Encoded.antt =====
-- The words of tools/asm_pineapple.py's `Asm` on the core of src/rv32i_core.v: each method's word
-- makes the core perform the instruction of the method's name.
pub mod Fields
pub mod Formats
pub mod Instrs
pub mod Jumps
