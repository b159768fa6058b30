-- ===== src/Scripts/Ps2Ascii.antt =====
-- tools/build_ps2_ascii.py: the PS/2 receiver with framing and the scancode table. Its pages 1 to 22
-- are those of tools/build_ps2_reader.py.
pub mod Pages
pub mod Decoder
pub mod Process
pub mod Emit
pub mod Byte
pub mod Decodes
pub mod Strokes
pub mod Standalone
use agil_a.Common.{
  ℕ, zero, suc, ◌+◌, ◌-◌, ◌*◌, List, [], ◌∷◌, Result, ok, ◌>>=◌, ◌>>◌, ◌>=>◌, assert, none, ◌==◌,
  if◌then◌else◌,
}
use agil_a.Common.Int.{pos}
use agil_a.Asm.Encode.{add, addi, sw}
use agil_a.Asm.State.{op, label, beq, blt, jal_to}
use agil_a.Paged.State.{PagedAsm, paged_asm, page, switch_to, switch_to_computed, image}
use agil_a.Scripts.Ps2AsciiReceiver.{gpio_out, flash_page, accum, reserve_page, frame_pages}

abbrev pub break_pending : ℕ
break_pending = 5

abbrev pub ext_pending : ℕ
ext_pending = 6

-- `SCANCODE_TO_ASCII`
abbrev pub scancode_to_ascii : List (ℕ × ℕ)
scancode_to_ascii =
    (0x1C, b'a')
    ∷ (0x32, b'b')
    ∷ (0x21, b'c')
    ∷ (0x23, b'd')
    ∷ (0x24, b'e')
    ∷ (0x2B, b'f')
    ∷ (0x34, b'g')
    ∷ (0x33, b'h')
    ∷ (0x43, b'i')
    ∷ (0x3B, b'j')
    ∷ (0x42, b'k')
    ∷ (0x4B, b'l')
    ∷ (0x3A, b'm')
    ∷ (0x31, b'n')
    ∷ (0x44, b'o')
    ∷ (0x4D, b'p')
    ∷ (0x15, b'q')
    ∷ (0x2D, b'r')
    ∷ (0x1B, b's')
    ∷ (0x2C, b't')
    ∷ (0x3C, b'u')
    ∷ (0x2A, b'v')
    ∷ (0x1D, b'w')
    ∷ (0x22, b'x')
    ∷ (0x35, b'y')
    ∷ (0x1A, b'z')
    ∷ (0x45, b'0')
    ∷ (0x16, b'1')
    ∷ (0x1E, b'2')
    ∷ (0x26, b'3')
    ∷ (0x25, b'4')
    ∷ (0x2E, b'5')
    ∷ (0x36, b'6')
    ∷ (0x3D, b'7')
    ∷ (0x3E, b'8')
    ∷ (0x46, b'9')
    ∷ (0x29, 0x20)
    ∷ (0x5A, 0x0D)
    ∷ (0x66, 0x08)
    ∷ (0x0D, 0x09)
    ∷ (0x4E, 0x2D)
    ∷ (0x55, 0x3D)
    ∷ (0x54, 0x5B)
    ∷ (0x5B, 0x5D)
    ∷ (0x5D, 0x5C)
    ∷ (0x4C, 0x3B)
    ∷ (0x52, 0x27)
    ∷ (0x41, 0x2C)
    ∷ (0x49, 0x2E)
    ∷ (0x4A, 0x2F)
    ∷ (0x0E, 0x60)
    ∷ []

-- `table.get(key, 0)`
unfoldable pub get_or_zero : ℕ → List (ℕ × ℕ) → ℕ
get_or_zero key [] = 0
get_or_zero key ((k, v) ∷ table) = if k == key then v else get_or_zero key table

-- `SCANCODE_TO_ASCII.get(scancode, 0)`
unfoldable pub ascii_of : ℕ → ℕ
unfolding get_or_zero
ascii_of scancode = get_or_zero scancode scancode_to_ascii

-- `STOP_HIGH + 1`, where `STOP_HIGH` is three pages behind the sixteen of the data bits.
abbrev pub process_bp : ℕ
process_bp = 3 + 2 * 8 + 3 + 1

abbrev pub process_f0 : ℕ
process_f0 = process_bp + 1

abbrev pub process_e0 : ℕ
process_e0 = process_f0 + 1

abbrev pub process_extcheck : ℕ
process_extcheck = process_e0 + 1

abbrev pub process_dispatch : ℕ
process_dispatch = process_extcheck + 1

abbrev pub emit_page : ℕ
emit_page = process_dispatch + 1

abbrev pub table_start : ℕ
table_start = emit_page + 1

abbrev pub max_safe_scancode : ℕ
max_safe_scancode = 255 - table_start

-- The page PROCESS_BP.
unfoldable pub bp_page : PagedAsm → Result PagedAsm
unfolding reserve_page page op label beq jal_to switch_to_computed
bp_page =
    reserve_page process_bp
    >=> page (beq break_pending 0 "NOT_BP")
    >=> page (op (addi break_pending 0 (pos 0)))
    >=> page (op (addi ext_pending 0 (pos 0)))
    >=> page (op (addi accum 0 (pos 0)))
    >=> page (op (addi 30 0 (pos 1)))
    >=> page (jal_to 0 "CONVERGE")
    >=> page (label "NOT_BP")
    >=> page (op (addi 30 0 (pos process_f0)))
    >=> page (label "CONVERGE")
    >=> switch_to_computed none

-- The page PROCESS_F0.
unfoldable pub f0_page : PagedAsm → Result PagedAsm
unfolding reserve_page page op label beq jal_to switch_to_computed
f0_page =
    reserve_page process_f0
    >=> page (op (addi 7 0 (pos 0xF0)))
    >=> page (beq accum 7 "IS_F0")
    >=> page (op (addi 30 0 (pos process_e0)))
    >=> page (jal_to 0 "CONVERGE")
    >=> page (label "IS_F0")
    >=> page (op (addi break_pending 0 (pos 1)))
    >=> page (op (addi accum 0 (pos 0)))
    >=> page (op (addi 30 0 (pos 1)))
    >=> page (label "CONVERGE")
    >=> switch_to_computed none

-- The page PROCESS_E0.
unfoldable pub e0_page : PagedAsm → Result PagedAsm
unfolding reserve_page page op label beq jal_to switch_to_computed
e0_page =
    reserve_page process_e0
    >=> page (op (addi 7 0 (pos 0xE0)))
    >=> page (beq accum 7 "IS_E0")
    >=> page (op (addi 30 0 (pos process_extcheck)))
    >=> page (jal_to 0 "CONVERGE")
    >=> page (label "IS_E0")
    >=> page (op (addi ext_pending 0 (pos 1)))
    >=> page (op (addi accum 0 (pos 0)))
    >=> page (op (addi 30 0 (pos 1)))
    >=> page (label "CONVERGE")
    >=> switch_to_computed none

-- The page PROCESS_EXTCHECK.
unfoldable pub extcheck_page : PagedAsm → Result PagedAsm
unfolding reserve_page page op label beq jal_to switch_to_computed
extcheck_page =
    reserve_page process_extcheck
    >=> page (beq ext_pending 0 "NOT_EP")
    >=> page (op (addi ext_pending 0 (pos 0)))
    >=> page (op (addi accum 0 (pos 0)))
    >=> page (op (addi 30 0 (pos 1)))
    >=> page (jal_to 0 "CONVERGE")
    >=> page (label "NOT_EP")
    >=> page (op (addi 30 0 (pos process_dispatch)))
    >=> page (label "CONVERGE")
    >=> switch_to_computed none

-- The page PROCESS_DISPATCH.
unfoldable pub dispatch_page : PagedAsm → Result PagedAsm
unfolding reserve_page page op label blt jal_to switch_to_computed
dispatch_page =
    reserve_page process_dispatch
    >=> page (op (addi 7 0 (pos max_safe_scancode)))
    >=> page (blt 7 accum "OUT_OF_RANGE")
    >=> page (op (addi 7 0 (pos table_start)))
    >=> page (op (add 30 accum 7))
    >=> page (jal_to 0 "CONVERGE")
    >=> page (label "OUT_OF_RANGE")
    >=> page (op (addi 30 0 (pos table_start)))
    >=> page (label "CONVERGE")
    >=> switch_to_computed none

-- The page EMIT_PAGE.
unfoldable pub emit_ascii_page : PagedAsm → Result PagedAsm
unfolding reserve_page page op switch_to
emit_ascii_page =
    reserve_page emit_page
    >=> page (op (sw 8 0 (pos gpio_out)))
    >=> page (op (addi accum 0 (pos 0)))
    >=> switch_to (pos 1) none

-- `for scancode in range(MAX_SAFE_SCANCODE + 1)`, from `scancode` with `left` rounds to go.
unfoldable pub table_pages : ℕ → ℕ → PagedAsm → Result PagedAsm
unfolding reserve_page page op switch_to ascii_of
table_pages zero scancode p = ok p
table_pages (suc left) scancode p =
    (reserve_page (table_start + scancode)
        >=> page (op (addi 8 0 (pos (ascii_of scancode))))
        >=> switch_to (pos emit_page) none
        >=> table_pages left (scancode + 1))
      p

-- Page 0: the accumulator and both flags are cleared.
unfoldable pub init_page : PagedAsm → Result PagedAsm
unfolding reserve_page page op switch_to
init_page =
    reserve_page 0
    >=> page (op (addi accum 0 (pos 0)))
    >=> page (op (addi break_pending 0 (pos 0)))
    >=> page (op (addi ext_pending 0 (pos 0)))
    >=> switch_to (pos 1) none

-- `image`
unfoldable pub ps2_ascii : Result (List ℕ)
unfolding paged_asm init_page frame_pages bp_page f0_page e0_page extcheck_page dispatch_page
    emit_ascii_page table_pages image
ps2_ascii = do
  p ← paged_asm 0xB4 44 flash_page 30
  p ← init_page p
  (p, _) ← frame_pages p
  p ← (bp_page >=> f0_page >=> e0_page >=> extcheck_page >=> dispatch_page >=> emit_ascii_page) p
  assert (p.cur_page_num == table_start)
  p ← table_pages (max_safe_scancode + 1) 0 p
  ok (image p)
