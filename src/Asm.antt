-- ===== src/Asm.antt =====
-- tools/asm_pineapple.py, the class `Asm`: the encoders, the object that collects instructions,
-- labels and fixups, and `finalize`.
pub mod Encode
pub mod State
pub mod Labels
pub mod Finalize
pub mod Bytes
pub mod Examples
