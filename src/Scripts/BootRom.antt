-- ===== src/Scripts/BootRom.antt =====
-- tools/build_boot_rom.py: the boot ROM, on the script's own assembler.
pub mod Assembler
pub mod Steps
pub mod Wire
pub mod Bit
pub mod Byte
pub mod Load
pub mod Rom
pub mod Boot
pub mod SelfTest
pub mod Demo
pub mod Reset
pub mod Body
pub mod Literals
pub mod Case
pub mod Files
pub mod Pair
use agil_a.Common.{ℕ, suc, ◌/◌, List, [], ◌∷◌, ◌++◌, ok, Result, ◌>>=◌, ◌>>◌, ◌>=>◌, set_item}
use agil_a.Common.Int.{pos, neg, sub_ℕ}
use agil_a.Asm.Finalize.{label_at, in_range}
use agil_a.Scripts.BootRom.Assembler.{
  Call, add, or, addi, andi, ori, slli, srli, lw, lbu, jalr, sb, sw, label, beq, bne, blt, jal_to,
  assembler, run, jal_bits, finish,
}
use agil_a.Common.Bits.{◌>>>◌, ◌&&&◌}

abbrev pub ram_base : ℕ
ram_base = 0xB4

abbrev pub gpio_in : ℕ
gpio_in = 0xF4

abbrev pub led_out : ℕ
led_out = 0xF0

abbrev pub ext_psram : ℕ
ext_psram = 0xE0

abbrev pub flash_mode : ℕ
flash_mode = 0xF8

abbrev pub timeout_shift : ℕ
timeout_shift = 9

abbrev pub data_mask : ℕ
data_mask = 1

abbrev pub clock_mask : ℕ
clock_mask = 2

abbrev pub start_mask : ℕ
start_mask = 4

abbrev pub selftest_pattern : ℕ
selftest_pattern = 0xA5

-- The self-test, and the demo loop up to the fall into flash.
unfoldable pub selftest_and_demo : List Call
selftest_and_demo =
    label "SELFTEST"
    ∷ addi 2 0 (pos selftest_pattern)
    ∷ sb 2 0 (pos ext_psram)
    ∷ lbu 6 0 (pos ext_psram)
    ∷ addi 8 0 (pos 0)
    ∷ beq 6 2 "MAIN_INIT"
    ∷ addi 8 0 (pos 0x80)
    ∷ label "MAIN_INIT"
    ∷ addi 9 0 (pos 0)
    ∷ label "MAIN_LOOP"
    ∷ lw 2 0 (pos gpio_in)
    ∷ andi 2 2 (pos start_mask)
    ∷ bne 2 0 "START_SEEN"
    ∷ addi 9 9 (pos 1)
    ∷ andi 3 9 (pos 0xF)
    ∷ or 2 8 3
    ∷ sw 2 0 (pos led_out)
    ∷ srli 3 9 (pos timeout_shift)
    ∷ beq 3 0 "MAIN_LOOP"
    ∷ sw 0 0 (pos flash_mode)
    ∷ jal_to 0 "RUN"
    ∷ []

-- The bootloader, the jump to the loaded program, and the routine that receives a byte.
unfoldable pub bootload : List Call
bootload =
    label "START_SEEN"
    ∷ jal_to 1 "RECV_BYTE"
    ∷ add 4 6 0
    ∷ addi 5 0 (pos ram_base)
    ∷ label "BYTE_LOOP"
    ∷ beq 4 0 "RUN"
    ∷ jal_to 1 "RECV_BYTE"
    ∷ sb 6 5 (pos 0)
    ∷ addi 5 5 (pos 1)
    ∷ addi 4 4 (neg 1)
    ∷ jal_to 0 "BYTE_LOOP"
    ∷ label "RUN"
    ∷ jal_to 0 "RUN"
    ∷ label "RECV_BYTE"
    ∷ addi 6 0 (pos 0)
    ∷ addi 7 0 (pos 0)
    ∷ label "BIT_WAIT_HIGH"
    ∷ lw 2 0 (pos gpio_in)
    ∷ andi 3 2 (pos clock_mask)
    ∷ beq 3 0 "BIT_WAIT_HIGH"
    ∷ andi 2 2 (pos data_mask)
    ∷ slli 6 6 (pos 1)
    ∷ beq 2 0 "SKIP_OR"
    ∷ ori 6 6 (pos 1)
    ∷ label "SKIP_OR"
    ∷ label "BIT_WAIT_LOW"
    ∷ lw 2 0 (pos gpio_in)
    ∷ andi 2 2 (pos clock_mask)
    ∷ bne 2 0 "BIT_WAIT_LOW"
    ∷ addi 7 7 (pos 1)
    ∷ addi 3 0 (pos 8)
    ∷ blt 7 3 "BIT_WAIT_HIGH"
    ∷ jalr 0 1 (pos 0)
    ∷ []

-- The script's calls.
abbrev pub boot_calls : List Call
unfolding selftest_and_demo bootload
boot_calls = selftest_and_demo ++ bootload

-- `words`, with the placeholder at RUN patched into the jump to `RAM_BASE`.
unfoldable pub boot_rom : Result (List ℕ)
unfolding run boot_calls finish label_at jal_bits
boot_rom = do
  a ← run boot_calls assembler
  words ← finish a
  pc ← label_at "RUN" a.labels
  let run_idx = pc / 4
  let off = sub_ℕ ram_base pc
  in_range 1048576 off
  set_item words run_idx (jal_bits 0 off)

-- The bytes of `boot_rom.hex`: `(w >> (8 * b)) & 0xFF` for `b in range(4)`.
unfoldable pub hex_bytes : List ℕ → List ℕ
hex_bytes [] = []
hex_bytes (w ∷ ws) =
    (w >>> 0 &&& 0xFF)
    ∷ (w >>> 8 &&& 0xFF)
    ∷ (w >>> 16 &&& 0xFF)
    ∷ (w >>> 24 &&& 0xFF)
    ∷ hex_bytes ws

unfoldable pub boot_rom_bytes : Result (List ℕ)
unfolding boot_rom hex_bytes
boot_rom_bytes = boot_rom >>= λ ws. ok (hex_bytes ws)
