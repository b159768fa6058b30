-- ===== src/Chip/Examples/Reset.antt =====
-- The boot ROM from reset, with a PSRAM that keeps a byte: once with no host, and once with one.
use mathlib.Core.List.{flatten}
use agil_a.Common.{
  ℕ, ◌+◌, ◌-◌, ◌*◌, ◌/◌, ◌%◌, refl, arith, List, [], ◌∷◌, ◌++◌, ltb, ◌==◌, if◌then◌else◌, true,
  false,
}
use agil_a.Core.Runs.{Runs, running}
use agil_a.Chip.Memory.{Board, Psram, Chip, chip_bus}
use agil_a.Chip.Image.{HasBytes}
use agil_a.Chip.Examples.{memory, memory-HasBytes}
use agil_a.Chip.Examples.Boot.{four, stub_bits, pulses-Sent}
use agil_a.Scripts.BootRom.{hex_bytes}
use agil_a.Scripts.BootRom.Steps.{boot_words}
use agil_a.Scripts.BootRom.Rom.{boot_rom_bytes-words}
use agil_a.Scripts.BootRom.Wire.{Sent}
use agil_a.Scripts.BootRom.Load.{loaded}
use agil_a.Scripts.BootRom.Demo.{counted}
use agil_a.Scripts.BootRom.Reset.{boot_rom-times_out, boot_rom-boots}

abbrev pub one_byte : Psram ℕ
one_byte = record { get = λ d dev at size. (d, d); put = λ d dev at size v. v }

abbrev pub fresh_chip : Chip ℕ
fresh_chip = record {
  ram = λ i. 0;
  gpio_out = 0;
  psram_bank = 0;
  flash_mode = false;
  flash_page = 0;
  qspi_div_sel = 3;
  timer_enable = 0;
  pwm_duty = 0;
  pwm_enable = 0;
  pin_mux = 0;
  psram = 9;
  sampled = 0;
  written = [];
}

abbrev nobody : Board
nobody = record { rom = memory (hex_bytes boot_words); flash = λ i. 0; sample = λ t at. 0 }

boot_rom-times_out_example :
    (r' : ℕ → ℕ) × Runs
      (chip_bus nobody one_byte)
      (running 0 (λ r. 7), fresh_chip)
      (
        running 0xB4 r',
        record fresh_chip {
          flash_mode = true;
          psram = 0xA5;
          sampled = 512;
          gpio_out = 0;
          written = counted 0 512 [];
        },
      )
boot_rom-times_out_example =
    boot_rom-times_out nobody one_byte (hex_bytes boot_words) (λ r. 7) fresh_chip
      boot_rom_bytes-words (memory-HasBytes (hex_bytes boot_words)) (λ t h. refl)

abbrev sent : List ℕ
unfolding flatten
sent = four ++ flatten stub_bits

-- START at poll 3, and the wire at polls 4 to 83.
abbrev late_host : Board
late_host = record {
  rom = memory (hex_bytes boot_words);
  flash = λ i. 0;
  sample = λ t at.
      if t == 3 then 4 else if ltb t 3 then 0 else memory sent ((t - 4) / 2) + (t + 1) % 2 * 2;
}

late-Sent : Sent late_host sent 4 84
unfolding sent
late-Sent = pulses-Sent late_host sent 4 refl

boot_rom-boots_example :
    (r' : ℕ → ℕ) × Runs
      (chip_bus late_host one_byte)
      (running 0 (λ r. 7), fresh_chip)
      (
        running 0xB4 r',
        record fresh_chip {
          ram = loaded (λ i. 0) 4 (0x23 ∷ 0x2c ∷ 0x00 ∷ 0x0e ∷ []);
          psram = 0xA5;
          sampled = 84;
          gpio_out = 3;
          written = 3 ∷ 2 ∷ 1 ∷ [];
        },
      )
    × HasBytes
        (loaded (λ i. 0) 4 (0x23 ∷ 0x2c ∷ 0x00 ∷ 0x0e ∷ []))
        4
        (0x23 ∷ 0x2c ∷ 0x00 ∷ 0x0e ∷ [])
unfolding flatten sent
boot_rom-boots_example =
    boot_rom-boots late_host one_byte 3 (hex_bytes boot_words) four stub_bits 84 (λ r. 7) fresh_chip
      boot_rom_bytes-words (memory-HasBytes (hex_bytes boot_words)) refl (omega arith)
      (λ t h. ground arith) refl refl (omega arith) refl (omega arith)
      ((refl, omega arith, (refl, omega arith, (refl, omega arith, (refl, omega arith, tt)))))
      late-Sent
