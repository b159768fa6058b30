-- ===== src/Paged.antt =====
-- tools/asm_pineapple.py, the class `PagedAsm`: a flash image of pages, each closed by a write of
-- FLASH_PAGE and the trampoline.
pub mod State
pub mod Layout
pub mod Pages
pub mod Switch
pub mod Run
pub mod Image
pub mod Examples
