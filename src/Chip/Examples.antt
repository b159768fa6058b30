-- ===== src/Chip/Examples.antt =====
-- The chip of src/mem.v with the images of the scripts and a keyboard's frame on its pins.
pub mod Boot
pub mod Reset
pub mod Invariants
pub mod Landing
pub mod Rom
pub mod Canary
pub mod Pagetest
pub mod Typing
pub mod Standalone
use mathlib.Core.List.{flatten, append_assoc}
use agil_a.Common.{
  ℕ, suc, ◌+◌, ◌*◌, ◌/◌, ◌%◌, ◌≡◌, refl, sym, ap, ap₂, ◌∙◌, arith, true, false, Option, none, some,
  List, [], ◌∷◌, ◌++◌, get_elem?, map, length, length-append, ok,
}
use agil_a.Asm.Bytes.Laws.{to_bytes}
use agil_a.Core.Exec.{exec, step}
use agil_a.Core.Runs.{Runs, running}
use agil_a.Chip.Memory.{Board, Psram, Chip, chip_bus, word_at}
use agil_a.Chip.Image.{HasBytes}
use agil_a.Scripts.Handoff.{handoff_stub}
use agil_a.Scripts.Handoff.Starts.{handoff_stub-continues}
use agil_a.Scripts.Ps2Reader.Pins.{Clocked, seen, idle, bit}
use agil_a.Scripts.Ps2Reader.Receive.{Frame, line, reader_words, ps2_reader-words}
use agil_a.Scripts.Ps2Reader.Loop.{ps2_reader-receives}

abbrev byte_or : Option ℕ → ℕ
byte_or none = 0
byte_or (some b) = b

-- A memory that holds a list of bytes from its address 0 on.
abbrev memory : List ℕ → ℕ → ℕ
memory bytes i = byte_or (get_elem? bytes i)

get_elem?-append : (xs ys : List ℕ) (b : ℕ) → get_elem? (xs ++ b ∷ ys) (length xs) ≡ some b
get_elem?-append [] ys b = refl
get_elem?-append (x ∷ xs) ys b = get_elem?-append xs ys b

memory-HasBytes_from :
    (xs ys : List ℕ) (at : ℕ) (bytes : List ℕ)
    → bytes ≡ xs ++ ys
    → at ≡ length xs
    → HasBytes (memory bytes) at ys
memory-HasBytes_from xs [] at bytes e here = tt
memory-HasBytes_from xs (y ∷ ys) at bytes e here = (
  ap byte_or (ap₂ get_elem? e here ∙ get_elem?-append xs ys y),
  memory-HasBytes_from (xs ++ y ∷ []) ys (suc at) bytes (e ∙ sym (append_assoc xs (y ∷ []) ys))
      (omega (arith, length-append xs (y ∷ []), here)),
)

memory-HasBytes : (bytes : List ℕ) → HasBytes (memory bytes) 0 bytes
memory-HasBytes bytes = memory-HasBytes_from [] bytes 0 bytes refl refl

-- DATA (bit 4) has a frame's bits, and CLOCK (bit 3) is low and then high for each.
abbrev frame : Frame
frame = record { start = 0; bits = 0 ∷ 0 ∷ 1 ∷ 1 ∷ 1 ∷ 0 ∷ 0 ∷ 0 ∷ []; parity = 0; end = 1 }

abbrev keyboard : Board
keyboard = record {
  rom = λ i. 0;
  flash = memory (flatten (map to_bytes reader_words));
  sample = λ t at. memory (line frame) (t / 2) * 16 + t % 2 * 8;
}

abbrev no_psram : Psram Unit
no_psram = record { get = λ d dev at size. (0, d); put = λ d dev at size v. d }

abbrev loaded_chip : Chip Unit
loaded_chip = record {
  ram = memory (0 ∷ 0 ∷ 0 ∷ 0 ∷ 0x23 ∷ 0x2c ∷ 0x00 ∷ 0x0e ∷ []);
  gpio_out = 0;
  psram_bank = 0;
  flash_mode = false;
  flash_page = 0;
  qspi_div_sel = 3;
  timer_enable = 0;
  pwm_duty = 0;
  pwm_enable = 0;
  pin_mux = 0;
  psram = tt;
  sampled = 0;
  written = [];
}

stub_built : handoff_stub ≡ ok (0x23 ∷ 0x2c ∷ 0x00 ∷ 0x0e ∷ [])
unfolding handoff_stub
stub_built = refl

handoff_stub-continues_example :
    step
      (chip_bus keyboard no_psram)
      (step (chip_bus keyboard no_psram) (running 0xB4 (λ r. 7), loaded_chip))
    ≡ exec
        (chip_bus keyboard no_psram)
        (word_at keyboard.flash 4)
        (running 0xB8 (λ r. 7))
        (record loaded_chip { flash_mode = true })
handoff_stub-continues_example =
    handoff_stub-continues keyboard no_psram (0x23 ∷ 0x2c ∷ 0x00 ∷ 0x0e ∷ []) (λ r. 7) loaded_chip
      stub_built (refl, (refl, (refl, (refl, tt)))) refl

frame-Clocked : Clocked keyboard (line frame) 0 22
frame-Clocked = bit (seen refl refl) (seen refl refl) (
    bit (seen refl refl) (seen refl refl) (
      bit (seen refl refl) (seen refl refl) (
        bit (seen refl refl) (seen refl refl) (
          bit (seen refl refl) (seen refl refl) (
            bit (seen refl refl) (seen refl refl) (
              bit (seen refl refl) (seen refl refl) (
                bit (seen refl refl) (seen refl refl) (
                  bit (seen refl refl) (seen refl refl) (
                    bit (seen refl refl) (seen refl refl)
                      (bit {c = 1} (seen refl refl) (seen refl refl) idle))))))))))

-- The scancode 0x1C, from reset to GPIO_OUT.
ps2_reader-receives_example :
    (r' : ℕ → ℕ) × Runs
      (chip_bus keyboard no_psram)
      (running 0xB4 (λ r. 7), loaded_chip)
      (
        running 0xB4 r',
        record loaded_chip {
          flash_mode = true;
          flash_page = 1;
          sampled = 22;
          gpio_out = 0x1C;
          written = 0x1C ∷ [];
        },
      )
unfolding flatten
ps2_reader-receives_example =
    ps2_reader-receives keyboard no_psram (0x23 ∷ 0x2c ∷ 0x00 ∷ 0x0e ∷ [])
      (flatten (map to_bytes reader_words)) (frame ∷ []) 22 (λ r. 7) loaded_chip stub_built
      ps2_reader-words (refl, (refl, (refl, (refl, tt))))
      (memory-HasBytes (flatten (map to_bytes reader_words))) refl refl
      ((refl, (omega arith, omega arith)), tt) frame-Clocked
