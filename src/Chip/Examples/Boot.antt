-- ===== src/Chip/Examples/Boot.antt =====
-- The chip with the boot ROM, a host on the wire that sends the handoff stub, and then a keyboard.
use mathlib.Core.List.{flatten}
use agil_a.Common.{
  ℕ, suc, ◌+◌, ◌-◌, ◌*◌, ◌/◌, ◌%◌, ◌≡◌, refl, arith, Bool, true, ◌&&◌, List, [], ◌∷◌, ◌++◌, map,
  ltb, ◌==◌, ==_iff, if◌then◌else◌,
}
use agil_a.Asm.Bytes.Laws.{to_bytes}
use agil_a.Core.Runs.{Runs, running}
use agil_a.Chip.Memory.{Board, Chip, chip_bus}
use agil_a.Chip.Image.{HasBytes, &&-both}
use agil_a.Chip.Examples.{memory, memory-HasBytes, frame, no_psram, loaded_chip, stub_built}
use agil_a.Scripts.BootRom.{hex_bytes}
use agil_a.Scripts.BootRom.Steps.{boot_words}
use agil_a.Scripts.BootRom.Rom.{boot_rom_bytes-words}
use agil_a.Scripts.BootRom.Wire.{Sent, quiet, pulse, rises, falls}
use agil_a.Scripts.BootRom.Load.{loaded}
use agil_a.Scripts.BootRom.Boot.{boot_rom-loads}
use agil_a.Scripts.Ps2Reader.Pins.{pin, Clocked, seen, idle, bit}
use agil_a.Scripts.Ps2Reader.Receive.{line, reader_words, ps2_reader-words}
use agil_a.Scripts.Ps2Reader.Booted.{boot_rom-ps2_reader}

-- The length 4, and the bytes 0x23, 0x2C, 0x00 and 0x0E.
abbrev pub four : List ℕ
four = 0 ∷ 0 ∷ 0 ∷ 0 ∷ 0 ∷ 1 ∷ 0 ∷ 0 ∷ []

abbrev pub stub_bits : List (List ℕ)
stub_bits =
    (0 ∷ 0 ∷ 1 ∷ 0 ∷ 0 ∷ 0 ∷ 1 ∷ 1 ∷ [])
    ∷ (0 ∷ 0 ∷ 1 ∷ 0 ∷ 1 ∷ 1 ∷ 0 ∷ 0 ∷ [])
    ∷ (0 ∷ 0 ∷ 0 ∷ 0 ∷ 0 ∷ 0 ∷ 0 ∷ 0 ∷ [])
    ∷ (0 ∷ 0 ∷ 0 ∷ 0 ∷ 1 ∷ 1 ∷ 1 ∷ 0 ∷ [])
    ∷ []

abbrev wire_bits : List ℕ
unfolding flatten
wire_bits = four ++ flatten stub_bits

-- START at poll 0, the wire at polls 1 to 80, the keyboard at polls 81 to 102.
abbrev host : Board
host = record {
  rom = memory (hex_bytes boot_words);
  flash = memory (flatten (map to_bytes reader_words));
  sample = λ t at.
      if t == 0
      then 4
      else if ltb t 81
      then memory wire_bits ((t - 1) / 2) + t % 2 * 2
      else memory (line frame) ((t - 81) / 2) * 16 + (t - 81) % 2 * 8;
}

-- A pulse of two polls for each bit.
abbrev pub pulses : Board → List ℕ → ℕ → Bool
pulses board [] t = true
pulses board (b ∷ bs) t =
    ((pin board 1 t == 1) && (pin board 0 t == b))
    && ((pin board 1 (suc t) == 0) && pulses board bs (suc (suc t)))

abbrev pub after : List ℕ → ℕ → ℕ
after [] t = t
after (b ∷ bs) t = after bs (suc (suc t))

pub pulses-Sent :
    (board : Board) (bs : List ℕ) (t : ℕ) → pulses board bs t ≡ true → Sent board bs t (after bs t)
pulses-Sent board [] t right = quiet
pulses-Sent board (b ∷ bs) t right =
    let (up, later) =
      &&-both ((pin board 1 t == 1) && (pin board 0 t == b))
        ((pin board 1 (suc t) == 0) && pulses board bs (suc (suc t))) right in
    let (high, same) = &&-both (pin board 1 t == 1) (pin board 0 t == b) up in
    let (low, rest) = &&-both (pin board 1 (suc t) == 0) (pulses board bs (suc (suc t))) later in
    pulse (rises ((==_iff (pin board 1 t) 1).0 high) ((==_iff (pin board 0 t) b).0 same))
      (falls ((==_iff (pin board 1 (suc t)) 0).0 low)) (pulses-Sent board bs (suc (suc t)) rest)

stub-Sent : Sent host wire_bits 1 81
unfolding wire_bits
stub-Sent = pulses-Sent host wire_bits 1 refl

abbrev waiting_chip : Chip Unit
waiting_chip = record loaded_chip { ram = λ i. 0 }

boot_rom-loads_example :
    (r' : ℕ → ℕ) × Runs
      (chip_bus host no_psram)
      (running 0x1C (λ r. 7), waiting_chip)
      (
        running 0xB4 r',
        record waiting_chip {
          ram = loaded (λ i. 0) 4 (0x23 ∷ 0x2c ∷ 0x00 ∷ 0x0e ∷ []);
          sampled = 81;
        },
      )
    × HasBytes
        (loaded (λ i. 0) 4 (0x23 ∷ 0x2c ∷ 0x00 ∷ 0x0e ∷ []))
        4
        (0x23 ∷ 0x2c ∷ 0x00 ∷ 0x0e ∷ [])
unfolding flatten wire_bits
boot_rom-loads_example =
    boot_rom-loads host no_psram (hex_bytes boot_words) four stub_bits 81 (λ r. 7) waiting_chip
      boot_rom_bytes-words (memory-HasBytes (hex_bytes boot_words)) refl refl refl (omega arith)
      refl (omega arith)
      ((refl, omega arith, (refl, omega arith, (refl, omega arith, (refl, omega arith, tt)))))
      stub-Sent

frame-Clocked_after : Clocked host (line frame) 81 103
frame-Clocked_after = bit (seen refl refl) (seen refl refl) (
    bit (seen refl refl) (seen refl refl) (
      bit (seen refl refl) (seen refl refl) (
        bit (seen refl refl) (seen refl refl) (
          bit (seen refl refl) (seen refl refl) (
            bit (seen refl refl) (seen refl refl) (
              bit (seen refl refl) (seen refl refl) (
                bit (seen refl refl) (seen refl refl) (
                  bit (seen refl refl) (seen refl refl) (
                    bit (seen refl refl) (seen refl refl)
                      (bit {c = 1} (seen refl refl) (seen refl refl) idle))))))))))

-- The scancode 0x1C, with the stub sent over the wire.
boot_rom-ps2_reader_example :
    (r' : ℕ → ℕ) × Runs
      (chip_bus host no_psram)
      (running 0x1C (λ r. 7), waiting_chip)
      (
        running 0xB4 r',
        record waiting_chip {
          ram = loaded (λ i. 0) 4 (0x23 ∷ 0x2c ∷ 0x00 ∷ 0x0e ∷ []);
          flash_mode = true;
          flash_page = 1;
          sampled = 103;
          gpio_out = 0x1C;
          written = 0x1C ∷ [];
        },
      )
unfolding flatten wire_bits
boot_rom-ps2_reader_example =
    boot_rom-ps2_reader host no_psram (hex_bytes boot_words) (flatten (map to_bytes reader_words))
      (0x23 ∷ 0x2c ∷ 0x00 ∷ 0x0e ∷ []) four stub_bits (frame ∷ []) 81 103 (λ r. 7) waiting_chip
      boot_rom_bytes-words (memory-HasBytes (hex_bytes boot_words)) ps2_reader-words
      (memory-HasBytes (flatten (map to_bytes reader_words))) stub_built refl refl refl refl
      (omega arith) refl (omega arith)
      ((refl, omega arith, (refl, omega arith, (refl, omega arith, (refl, omega arith, tt))))) refl
      stub-Sent ((refl, omega arith), tt) frame-Clocked_after
