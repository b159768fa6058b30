-- ===== src/Chip/Examples/Typing.antt =====
-- A keyboard that types on the chip with the image of tools/build_ps2_ascii.py.
use mathlib.Core.List.{flatten}
use agil_a.Common.{
  ℕ, suc, ◌+◌, ◌*◌, ◌/◌, ◌%◌, ◌≡◌, Bool, ltb, ltb→lt, ◌&&◌, refl, ap, subst, ◌∙◌, arith, true, List,
  [], ◌∷◌, map, length,
}
use agil_a.Asm.Bytes.Laws.{AllBelow, to_bytes}
use agil_a.Core.Runs.{Runs, running}
use agil_a.Chip.Memory.{Board, chip_bus}
use agil_a.Chip.Image.{HasBytes, &&-both}
use agil_a.Scripts.Ps2Reader.Pins.{Clocked, seen, idle, bit}
use agil_a.Scripts.Ps2Reader.Receive.{Frame, AreFrames, line}
use agil_a.Scripts.Ps2Ascii.Decoder.{no_keys}
use agil_a.Scripts.Ps2Ascii.{ascii_of, get_or_zero}
use agil_a.Scripts.Ps2Ascii.Pages.{ascii_words, ps2_ascii-words}
use agil_a.Scripts.Ps2Ascii.Byte.{Holds}
use agil_a.Scripts.Ps2Ascii.Decodes.{ps2_ascii-decodes}
use agil_a.Scripts.Ps2Ascii.Strokes.{plain, extended_key, ps2_ascii-types}
use agil_a.Chip.Examples.{memory, memory-HasBytes, no_psram, loaded_chip, stub_built}

abbrev sent : List ℕ → Frame
sent bits = record { start = 0; bits = bits; parity = 0; end = 1 }

-- The bytes 0xE0, 0xF0 and 0x1C, and 0x75 (the key with an arrow that points up).
abbrev e0 : Frame
e0 = sent (0 ∷ 0 ∷ 0 ∷ 0 ∷ 0 ∷ 1 ∷ 1 ∷ 1 ∷ [])

abbrev f0 : Frame
f0 = sent (0 ∷ 0 ∷ 0 ∷ 0 ∷ 1 ∷ 1 ∷ 1 ∷ 1 ∷ [])

abbrev key_a : Frame
key_a = sent (0 ∷ 0 ∷ 1 ∷ 1 ∷ 1 ∷ 0 ∷ 0 ∷ 0 ∷ [])

abbrev key_up : Frame
key_up = sent (1 ∷ 0 ∷ 1 ∷ 0 ∷ 1 ∷ 1 ∷ 1 ∷ 0 ∷ [])

abbrev pub typing : List Frame
typing = e0 ∷ key_up ∷ e0 ∷ f0 ∷ key_up ∷ key_a ∷ f0 ∷ key_a ∷ []

abbrev pub wire : List ℕ
wire = flatten (map line typing)

abbrev typist : Board
typist = record {
  rom = λ i. 0;
  flash = memory (flatten (map to_bytes ascii_words));
  sample = λ t at. memory wire (t / 2) * 16 + t % 2 * 8;
}

-- A board whose pins follow the wire from poll `base` on.
pub wire-Clocked :
    (board : Board) (base : ℕ)
    → ((n : ℕ) → board.sample (base + n) 0xF4 ≡ memory wire (n / 2) * 16 + n % 2 * 8)
    → (bits : List ℕ) (i t w : ℕ) → t ≡ base + 2 * i
    → w ≡ base + 2 * (i + length bits)
    → HasBytes (memory wire) i bits
    → AllBelow 2 bits
    → Clocked board bits t w
wire-Clocked board base follows [] i t w at end holds below =
    subst (λ n. Clocked board [] t n) (omega (arith, at, end)) idle
wire-Clocked board base follows (b ∷ bits) i t w at end (this, later) (small, below) =
    let half : 2 * i / 2 ≡ i = omega arith in
    let half' : suc (2 * i) / 2 ≡ i = omega arith in
    let low : memory wire (2 * i / 2) ≡ b = ap (memory wire) half ∙ this in
    let high : memory wire (suc (2 * i) / 2) ≡ b = ap (memory wire) half' ∙ this in
    let after : suc t ≡ base + suc (2 * i) = omega (arith, at) in
    let first = ap (λ n. board.sample n 0xF4) at ∙ follows (2 * i) in
    let second = ap (λ n. board.sample n 0xF4) after ∙ follows (suc (2 * i)) in
    bit {c = b} (seen (omega (arith, first, low)) (omega (arith, first, low)))
      (seen (omega (arith, second, high)) (omega (arith, second, high)))
      (wire-Clocked board base follows bits (suc i) (suc (suc t)) w (omega (arith, at))
        (omega (arith, end)) later below)

abbrev pub are_bits : List ℕ → Bool
are_bits [] = true
are_bits (b ∷ bits) = ltb b 2 && are_bits bits

pub are_bits-AllBelow : (bits : List ℕ) → are_bits bits ≡ true → AllBelow 2 bits
are_bits-AllBelow [] h = tt
are_bits-AllBelow (b ∷ bits) h =
    let (small, below) = &&-both (ltb b 2) (are_bits bits) h in
    (ltb→lt b 2 small, are_bits-AllBelow bits below)

typing-Clocked : Clocked typist wire 0 176
unfolding flatten
typing-Clocked =
    wire-Clocked typist 0
      (λ n. let e : 0 + n ≡ n = omega arith in ap (λ x. memory wire (x / 2) * 16 + x % 2 * 8) e)
      wire 0 0 176 refl refl (memory-HasBytes wire) (are_bits-AllBelow wire refl)

pub typing-AreFrames : AreFrames typing
typing-AreFrames =
    let e0_bits = are_bits-AllBelow e0.bits refl in
    let f0_bits = are_bits-AllBelow f0.bits refl in
    let a_bits = are_bits-AllBelow key_a.bits refl in
    let up_bits = are_bits-AllBelow key_up.bits refl in
    (
      (refl, e0_bits),
      (
        (refl, up_bits),
        (
          (refl, e0_bits),
          (
            (refl, f0_bits),
            ((refl, up_bits), ((refl, a_bits), ((refl, f0_bits), ((refl, a_bits), tt)))),
          ),
        ),
      ),
    )

-- The key 0x1C is pressed and let go.
ps2_ascii-types_example :
    (r' : ℕ → ℕ) × Runs
      (chip_bus typist no_psram)
      (running 0xB4 (λ r. 7), loaded_chip)
      (
        running 0xB4 r',
        record loaded_chip {
          flash_mode = true;
          flash_page = 1;
          sampled = 176;
          gpio_out = b'a';
          written = b'a' ∷ [];
        },
      )
    × Holds r' 0 no_keys
unfolding flatten ascii_of get_or_zero
ps2_ascii-types_example =
    ps2_ascii-types typist no_psram (0x23 ∷ 0x2c ∷ 0x00 ∷ 0x0e ∷ [])
      (flatten (map to_bytes ascii_words)) typing (extended_key 0x75 ∷ plain 0x1C ∷ []) 176 (λ r. 7)
      loaded_chip stub_built ps2_ascii-words (refl, (refl, (refl, (refl, tt))))
      (memory-HasBytes (flatten (map to_bytes ascii_words))) refl refl typing-AreFrames
      typing-Clocked refl ((refl, refl), ((refl, refl), tt))

ps2_ascii-decodes_example :
    (r' : ℕ → ℕ) × Runs
      (chip_bus typist no_psram)
      (running 0xB4 (λ r. 7), loaded_chip)
      (
        running 0xB4 r',
        record loaded_chip {
          flash_mode = true;
          flash_page = 1;
          sampled = 176;
          gpio_out = b'a';
          written = b'a' ∷ [];
        },
      )
    × Holds r' 0 no_keys
unfolding flatten ascii_of get_or_zero
ps2_ascii-decodes_example =
    ps2_ascii-decodes typist no_psram (0x23 ∷ 0x2c ∷ 0x00 ∷ 0x0e ∷ [])
      (flatten (map to_bytes ascii_words)) typing 176 (λ r. 7) loaded_chip stub_built
      ps2_ascii-words (refl, (refl, (refl, (refl, tt))))
      (memory-HasBytes (flatten (map to_bytes ascii_words))) refl refl typing-AreFrames
      typing-Clocked
