-- ===== src/Chip/Examples/Standalone.antt =====
-- The boot ROM with no host, and then a keyboard at the image of tools/build_ps2_ascii.py in the flash.
use mathlib.Core.List.{flatten}
use agil_a.Common.{
  ℕ, ◌+◌, ◌-◌, ◌*◌, ◌/◌, ◌%◌, ◌<◌, ◌≡◌, refl, ap, arith, true, [], ◌∷◌, map, ltb, lt→ltb, ge→ltb,
  if◌then◌else◌,
}
use agil_a.Asm.Bytes.Laws.{to_bytes}
use agil_a.Core.Runs.{Runs, running}
use agil_a.Chip.Memory.{Board, chip_bus}
use agil_a.Chip.Examples.{memory, memory-HasBytes}
use agil_a.Chip.Examples.Reset.{one_byte, fresh_chip}
use agil_a.Chip.Examples.Typing.{wire, typing, wire-Clocked, are_bits-AllBelow, typing-AreFrames}
use agil_a.Scripts.BootRom.{hex_bytes}
use agil_a.Scripts.BootRom.Steps.{boot_words}
use agil_a.Scripts.BootRom.Rom.{boot_rom_bytes-words}
use agil_a.Scripts.BootRom.Demo.{counted}
use agil_a.Scripts.Ps2Reader.Pins.{pin, Clocked}
use agil_a.Scripts.Ps2Ascii.{ascii_of, get_or_zero}
use agil_a.Scripts.Ps2Ascii.Decoder.{no_keys}
use agil_a.Scripts.Ps2Ascii.Pages.{ascii_words, ps2_ascii-words}
use agil_a.Scripts.Ps2Ascii.Byte.{Holds}
use agil_a.Scripts.Ps2Ascii.Standalone.{boot_rom-ps2_ascii}

-- No START in the first 512 polls, and then the keys.
abbrev desk : Board
desk = record {
  rom = memory (hex_bytes boot_words);
  flash = memory (flatten (map to_bytes ascii_words));
  sample = λ t at. if ltb t 512 then 0 else memory wire ((t - 512) / 2) * 16 + (t - 512) % 2 * 8;
}

desk-low : (t : ℕ) → t < 512 → pin desk 2 (0 + t) ≡ 0
desk-low t h =
    let early : ltb (0 + t) 512 ≡ true = lt→ltb (0 + t) 512 (omega arith) in rw early refl

desk-Clocked : Clocked desk wire 512 688
unfolding flatten
desk-Clocked =
    wire-Clocked desk 512
      (λ n.
        let late = ge→ltb (512 + n) 512 (omega arith) in
        let e : 512 + n - 512 ≡ n = omega arith in
        rw late (ap (λ x. memory wire (x / 2) * 16 + x % 2 * 8) e))
      wire 0 512 688 refl refl (memory-HasBytes wire) (are_bits-AllBelow wire refl)

boot_rom-ps2_ascii_example :
    (r' : ℕ → ℕ) × Runs
      (chip_bus desk one_byte)
      (running 0 (λ r. 7), fresh_chip)
      (
        running 0xB4 r',
        record fresh_chip {
          flash_mode = true;
          flash_page = 1;
          psram = 0xA5;
          sampled = 688;
          gpio_out = b'a';
          written = b'a' ∷ counted 0 512 [];
        },
      )
    × Holds r' 0 no_keys
unfolding flatten ascii_of get_or_zero
boot_rom-ps2_ascii_example =
    boot_rom-ps2_ascii desk one_byte (hex_bytes boot_words) (flatten (map to_bytes ascii_words))
      typing 688 (λ r. 7) fresh_chip boot_rom_bytes-words (memory-HasBytes (hex_bytes boot_words))
      ps2_ascii-words (memory-HasBytes (flatten (map to_bytes ascii_words))) refl desk-low
      typing-AreFrames desk-Clocked
