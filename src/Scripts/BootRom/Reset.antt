-- ===== src/Scripts/BootRom/Reset.antt =====
-- The boot ROM of tools/build_boot_rom.py on the chip, from reset on: the self-test and the wait for START,
-- and then the flash or the program of the host.
use mathlib.Core.List.{flatten}
use agil_a.Common.{
  ℕ, suc, ◌+◌, ◌%◌, ◌^◌, ◌<◌, ◌≡◌, refl, subst, arith, true, false, Bool-cases, inl, inr, List,
  ◌++◌, length, ok, ◌==◌,
}
use agil_a.Asm.Bytes.Laws.{AllBelow}
use agil_a.Core.Runs.{Runs, running, Runs-trans}
use agil_a.Chip.Memory.{Board, Psram, Chip, chip_bus}
use agil_a.Chip.Image.{HasBytes}
use agil_a.Scripts.Ps2Reader.Pins.{pin}
use agil_a.Scripts.BootRom.{boot_rom_bytes}
use agil_a.Scripts.BootRom.Rom.{boot_rom_bytes-HasBootRom}
use agil_a.Scripts.BootRom.Wire.{Sent, number}
use agil_a.Scripts.BootRom.Load.{loaded, AreBytes}
use agil_a.Scripts.BootRom.Boot.{sent_bytes, boot_rom-loads}
use agil_a.Scripts.BootRom.SelfTest.{probed, failed, Runs-selftest}
use agil_a.Scripts.BootRom.Demo.{last_shown, counted, waited, Runs-rounds, Runs-timeout}

failed-flag : (v : ℕ) → (failed v % 2 ^ 4 ≡ 0) × (failed v < 129)
failed-flag v = elim (Bool-cases (v % 2 ^ 8 == 0xA5)) [
  | inl same ↦ rw same (refl, omega arith)
  | inr other ↦ rw other (refl, omega arith)
]

module _ {D : Type 0} (board : Board) (ram_chips : Psram D) where
  -- The chip's ROM holds the bytes of the boot ROM, and the core is at address 0. When the 512 polls of
  -- START that follow all see it low, the core comes to 0xB4 with FLASH_MODE on. The PSRAM then has the
  -- pattern 0xA5 at its address 0 and was read back once, and the values written to LED_OUT are the
  -- counts from 1 to 512, the lowest four bits of each, with bit 7 set exactly when what was read back
  -- is not the pattern. Nothing else in the memory map has changed.
  pub boot_rom-times_out :
      (image : List ℕ) (r : ℕ → ℕ) (m : Chip D)
      → boot_rom_bytes ≡ ok image
      → HasBytes board.rom 0 image
      → ((t : ℕ) → t < 512 → pin board 2 (m.sampled + t) ≡ 0)
      → let (v, d) = probed ram_chips m in
        (r' : ℕ → ℕ) × Runs
          (chip_bus board ram_chips)
          (running 0 r, m)
          (
            running 0xB4 r',
            record m {
              flash_mode = true;
              psram = d;
              sampled = m.sampled + 512;
              gpio_out = failed v;
              written = counted (failed v) 512 m.written;
            },
          )
  boot_rom-times_out image r m built holds low =
      let rom = boot_rom_bytes-HasBootRom board image built holds in
      let v : ℕ = (probed ram_chips m).0 in
      let m₁ = record m { psram = (probed ram_chips m).1 } in
      let (r₁, run, eight, nine) = Runs-selftest board ram_chips rom r m in
      let (r₂, rest) =
        Runs-timeout board ram_chips rom (failed v) r₁ m₁ low (failed-flag v).0 (failed-flag v).1
          eight nine in
      let shown : failed v + 512 % 16 ≡ failed v = omega arith in
      (
        r₂,
        subst
            (λ g.
              Runs (chip_bus board ram_chips) (running 0 r, m)
                (
                  running 0xB4 r₂,
                  record (waited (failed v) 512 m₁) { flash_mode = true; gpio_out = g },
                ))
            shown (Runs-trans run rest),
      )

  -- The chip's ROM holds the bytes of the boot ROM, the core is at address 0, and FLASH_MODE is off. When
  -- the polls of START see it low `n` times, fewer than 512, and then high, and the host then clocks in
  -- a length byte of at most 44 and that many bytes, each with its highest bit first, the core comes to
  -- 0xB4 with the bytes stored from there on in their order. LED_OUT has counted to `n` with the fail
  -- flag of the self-test, the PSRAM was written and read once, and the rest of the memory map is as it
  -- was.
  pub boot_rom-boots :
      (n : ℕ) (image size : List ℕ) (bytes : List (List ℕ)) (w : ℕ) (r : ℕ → ℕ) (m : Chip D)
      → boot_rom_bytes ≡ ok image
      → HasBytes board.rom 0 image
      → m.flash_mode ≡ false
      → n < 512
      → ((t : ℕ) → t < n → pin board 2 (m.sampled + t) ≡ 0)
      → pin board 2 (m.sampled + n) ≡ 1
      → length size ≡ 8
      → AllBelow 2 size
      → number 0 size ≡ length bytes
      → length bytes < 45
      → AreBytes bytes
      → Sent board (size ++ flatten bytes) (suc (m.sampled + n)) w
      → let (v, d) = probed ram_chips m in
        (r' : ℕ → ℕ) × Runs
          (chip_bus board ram_chips)
          (running 0 r, m)
          (
            running 0xB4 r',
            record m {
              ram = loaded m.ram 4 (sent_bytes bytes);
              psram = d;
              sampled = w;
              gpio_out = last_shown (failed v) n m.gpio_out;
              written = counted (failed v) n m.written;
            },
          )
        × HasBytes (loaded m.ram 4 (sent_bytes bytes)) 4 (sent_bytes bytes)
  boot_rom-boots n image size bytes w r m built holds off small low start eight below counts fits
        are sent =
      let rom = boot_rom_bytes-HasBootRom board image built holds in
      let v : ℕ = (probed ram_chips m).0 in
      let m₁ = record m { psram = (probed ram_chips m).1 } in
      let (r₁, run, x8, x9) = Runs-selftest board ram_chips rom r m in
      let (r₂, waiting, _, _) =
        Runs-rounds board ram_chips rom n (failed v) r₁ m₁ low (failed-flag v).0 (failed-flag v).1
          small x8 x9 in
      let (r₃, rest, stored) =
        boot_rom-loads board ram_chips image size bytes w r₂ (waited (failed v) n m₁) built holds
          off start eight below counts fits are sent in
      (r₃, Runs-trans run (Runs-trans waiting rest), stored)
