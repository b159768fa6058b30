-- ===== src/Scripts.antt =====
-- The programs under tools/ that drive the assembler.
pub mod Hex
pub mod HexFiles
pub mod Canary
pub mod Pagetest
pub mod Ps2Reader
pub mod Ps2AsciiReceiver
pub mod Ps2Ascii
pub mod St7789
pub mod Handoff
pub mod AluTest
pub mod BootRom
pub mod Examples
