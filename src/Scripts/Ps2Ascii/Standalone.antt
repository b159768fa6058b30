-- ===== src/Scripts/Ps2Ascii/Standalone.antt =====
-- Two scripts on one chip with no host: the boot ROM of tools/build_boot_rom.py gives up its wait, and the
-- image of tools/build_ps2_ascii.py runs from the flash.
use mathlib.Core.List.{flatten}
use agil_a.Common.{ℕ, ◌+◌, ◌<◌, ◌≡◌, refl, subst, arith, true, List, map, ok}
use agil_a.Core.Runs.{set, Runs, running, Runs-trans}
use agil_a.Chip.Memory.{Board, Psram, Chip, chip_bus}
use agil_a.Chip.Run.{Runs-nops}
use agil_a.Chip.Image.{HasBytes}
use agil_a.Scripts.BootRom.{boot_rom_bytes}
use agil_a.Scripts.BootRom.SelfTest.{probed, failed}
use agil_a.Scripts.BootRom.Demo.{counted}
use agil_a.Scripts.BootRom.Reset.{boot_rom-times_out}
use agil_a.Scripts.Ps2Reader.Pins.{pin, Clocked}
use agil_a.Scripts.Ps2Reader.Receive.{Frame, line, AreFrames}
use agil_a.Scripts.Ps2Ascii.{ps2_ascii}
use agil_a.Scripts.Ps2Ascii.Decoder.{no_keys, Output, decode_all}
use agil_a.Scripts.Ps2Ascii.Pages.{clear_words}
use agil_a.Scripts.Ps2Ascii.Byte.{Holds}
use agil_a.Scripts.Ps2Ascii.Decodes.{bytes_of, ascii_pages, Runs-init, Runs-keys}

-- What the boot ROM leaves on LED_OUT behind 512 rounds, with `v` read back from the PSRAM.
abbrev pub waited_out : ℕ → List ℕ → Output
waited_out v ws = record { gpio = failed v; values = counted (failed v) 512 ws }

module _ {D : Type 0} (board : Board) (ram_chips : Psram D) where
  -- The chip's ROM holds the bytes of the boot ROM and its flash those of the PS/2 to ASCII image, the
  -- core is at address 0, and FLASH_PAGE is 0. When the 512 polls of START see it low, and the polls
  -- after them see frames of a keyboard clocked in one after another, each with eight data bits, the
  -- chip comes to page 1 with the flags of the decoder behind the bytes of the frames in x5 and x6, and
  -- behind the 512 counts of the boot ROM the values written to GPIO_OUT are those of the decoder.
  -- FLASH_MODE is on, the PSRAM has the pattern of the self-test, and the rest is as it was.
  pub boot_rom-ps2_ascii :
      (rom image : List ℕ) (fs : List Frame) (w : ℕ) (r : ℕ → ℕ) (m : Chip D)
      → boot_rom_bytes ≡ ok rom
      → HasBytes board.rom 0 rom
      → ps2_ascii ≡ ok image
      → HasBytes board.flash 0 image
      → m.flash_page ≡ 0
      → ((t : ℕ) → t < 512 → pin board 2 (m.sampled + t) ≡ 0)
      → AreFrames fs
      → Clocked board (flatten (map line fs)) (m.sampled + 512) w
      → let (v, d) = probed ram_chips m in
        let end = decode_all no_keys (bytes_of fs) (waited_out v m.written) in
        (r' : ℕ → ℕ) × Runs
          (chip_bus board ram_chips)
          (running 0 r, m)
          (
            running 0xB4 r',
            record m {
              flash_mode = true;
              flash_page = 1;
              psram = d;
              sampled = w;
              gpio_out = end.1.gpio;
              written = end.1.values;
            },
          )
        × Holds r' 0 end.0
  boot_rom-ps2_ascii rom image fs w r m built_rom in_rom built flashed first low are clocked =
      let v : ℕ = (probed ram_chips m).0 in
      let m₁ = record m {
        flash_mode = true;
        psram = (probed ram_chips m).1;
        sampled = m.sampled + 512;
        gpio_out = failed v;
        written = counted (failed v) 512 m.written;
      } in
      let (pages, ends) = ascii_pages board ram_chips image built flashed in
      let (r₁, booted) = boot_rom-times_out board ram_chips rom r m built_rom in_rom low in
      let here =
        subst
          (λ n.
            Runs (chip_bus board ram_chips) (running 0 r, m)
              (running 0xB4 r₁, record m₁ { flash_page = n }))
          first booted in
      let (padded, _) =
        Runs-nops board ram_chips 1 0 0 clear_words r₁ (record m₁ { flash_page = 0 }) pages.0
          (refl, refl) (omega arith) in
      let started = Runs-init board ram_chips r₁ m₁ refl pages.0 ends in
      let (r₂, run, held) =
        Runs-keys board ram_chips fs no_keys (m.sampled + 512) w
          (set (set (set (set r₁ 4 0) 5 0) 6 0) 30 1) m₁ pages ends are refl (refl, refl, refl)
          clocked in
      (r₂, Runs-trans here (Runs-trans padded (Runs-trans started run)), held)
