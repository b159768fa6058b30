-- ===== src/Scripts/Ps2Reader/Booted.antt =====
-- Three scripts on one chip: the boot ROM of tools/build_boot_rom.py takes in the stub of
-- tools/build_flash_handoff_stub.py, which starts the image of tools/build_ps2_reader.py.
use mathlib.Core.List.{flatten}
use agil_a.Common.{ℕ, suc, ◌<◌, ◌≡◌, subst, true, false, List, ◌++◌, length, map, ok}
use agil_a.Asm.Bytes.Laws.{AllBelow}
use agil_a.Core.Runs.{Runs, running, Runs-trans}
use agil_a.Chip.Memory.{Board, Psram, Chip, chip_bus}
use agil_a.Chip.Image.{HasBytes}
use agil_a.Scripts.BootRom.{boot_rom_bytes}
use agil_a.Scripts.BootRom.Wire.{Sent, number}
use agil_a.Scripts.BootRom.Load.{loaded, AreBytes}
use agil_a.Scripts.BootRom.Boot.{sent_bytes, boot_rom-loads}
use agil_a.Scripts.Handoff.{handoff_stub}
use agil_a.Scripts.Ps2Reader.{ps2_reader}
use agil_a.Scripts.Ps2Reader.Pins.{pin, Clocked}
use agil_a.Scripts.Ps2Reader.Receive.{Frame, line, AreFrames, last_byte, all_bytes}
use agil_a.Scripts.Ps2Reader.Loop.{ps2_reader-receives}

module _ {D : Type 0} (board : Board) (ram_chips : Psram D) where
  -- The chip's ROM holds the bytes of the boot ROM and its flash those of the PS/2 image, FLASH_MODE is
  -- off, FLASH_PAGE is 0, and the core polls at MAIN_LOOP. When that poll sees START, the host clocks in
  -- a length byte and the bytes of the handoff stub, and a keyboard then clocks in frames of eight data
  -- bits, the chip comes to page 1 with the byte of each frame written to GPIO_OUT, in their order and
  -- with no other write to it.
  pub boot_rom-ps2_reader :
      (rom image stub size : List ℕ) (bytes : List (List ℕ)) (fs : List Frame) (u w : ℕ) (r : ℕ → ℕ)
      (m : Chip D)
      → boot_rom_bytes ≡ ok rom
      → HasBytes board.rom 0 rom
      → ps2_reader ≡ ok image
      → HasBytes board.flash 0 image
      → handoff_stub ≡ ok stub
      → m.flash_mode ≡ false
      → m.flash_page ≡ 0
      → pin board 2 m.sampled ≡ 1
      → length size ≡ 8
      → AllBelow 2 size
      → number 0 size ≡ length bytes
      → length bytes < 45
      → AreBytes bytes
      → sent_bytes bytes ≡ stub
      → Sent board (size ++ flatten bytes) (suc m.sampled) u
      → AreFrames fs
      → Clocked board (flatten (map line fs)) u w
      → (r' : ℕ → ℕ) × Runs
          (chip_bus board ram_chips)
          (running 0x1C r, m)
          (
            running 0xB4 r',
            record m {
              ram = loaded m.ram 4 stub;
              flash_mode = true;
              flash_page = 1;
              sampled = w;
              gpio_out = last_byte m.gpio_out fs;
              written = all_bytes fs m.written;
            },
          )
  boot_rom-ps2_reader rom image stub size bytes fs u w r m built_rom in_rom built flashed handed off
        first start eight below counted fits are same sent frames clocked =
      let (r₁, booted, holds) =
        boot_rom-loads board ram_chips rom size bytes u r m built_rom in_rom off start eight below
          counted fits are sent in
      let loads = subst (λ bs. HasBytes (loaded m.ram 4 bs) 4 bs) same holds in
      let run =
        subst
          (λ bs.
            Runs (chip_bus board ram_chips) (running 0x1C r, m)
              (running 0xB4 r₁, record m { ram = loaded m.ram 4 bs; sampled = u }))
          same booted in
      let (r₂, receives) =
        ps2_reader-receives board ram_chips stub image fs w r₁
          (record m { ram = loaded m.ram 4 stub; sampled = u }) handed built loads flashed off first
          frames clocked in
      (r₂, Runs-trans run receives)
