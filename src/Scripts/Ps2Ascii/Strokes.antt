-- ===== src/Scripts/Ps2Ascii/Strokes.antt =====
-- Whole keystrokes, as the docstring of tools/build_ps2_ascii.py describes them, and the characters that
-- its program writes for them.
use mathlib.Core.List.{flatten}
use agil_a.Common.{
  ℕ, ◌≡◌, refl, ap, subst, ◌∙◌, true, false, some, List, [], ◌∷◌, ◌++◌, map, ok, ◌==◌,
}
use agil_a.Core.Runs.{Runs, running}
use agil_a.Chip.Memory.{Board, Psram, Chip, chip_bus}
use agil_a.Chip.Image.{HasBytes}
use agil_a.Scripts.Handoff.{handoff_stub}
use agil_a.Scripts.Ps2Reader.Pins.{Clocked}
use agil_a.Scripts.Ps2Reader.Receive.{Frame, line, AreFrames}
use agil_a.Scripts.Ps2Ascii.{ps2_ascii, ascii_of}
use agil_a.Scripts.Ps2Ascii.Decoder.{no_keys, Output, push, decode_all}
use agil_a.Scripts.Ps2Ascii.Byte.{output, Holds}
use agil_a.Scripts.Ps2Ascii.Decodes.{bytes_of, ps2_ascii-decodes}

-- A key with a scancode of its own, and a key whose scancode stands behind the byte 0xE0.
pub data Stroke : Type 0 where
  plain : ℕ → Stroke
  extended_key : ℕ → Stroke

-- The bytes of a key that is pressed and let go.
abbrev pub stroke_bytes : Stroke → List ℕ
stroke_bytes (plain s) = s ∷ 0xF0 ∷ s ∷ []
stroke_bytes (extended_key s) = 0xE0 ∷ s ∷ 0xE0 ∷ 0xF0 ∷ s ∷ []

abbrev pub IsStroke : Stroke → Type 0
IsStroke (plain s) = ((s == 0xF0) ≡ false) × ((s == 0xE0) ≡ false)
IsStroke (extended_key s) = ((s == 0xF0) ≡ false) × ((s == 0xE0) ≡ false)

abbrev pub all_stroke_bytes : List Stroke → List ℕ
all_stroke_bytes [] = []
all_stroke_bytes (k ∷ ks) = stroke_bytes k ++ all_stroke_bytes ks

abbrev pub AreStrokes : List Stroke → Type 0
AreStrokes [] = Unit
AreStrokes (k ∷ ks) = IsStroke k × AreStrokes ks

-- One character for each key with a scancode of its own, and none for the others.
abbrev pub type_key : Stroke → Output → Output
type_key (plain s) out = push (some (ascii_of s)) out
type_key (extended_key s) out = out

abbrev pub typed : List Stroke → Output → Output
typed [] out = out
typed (k ∷ ks) out = typed ks (type_key k out)

decode_all-stroke_bytes :
    (k : Stroke) (bytes : List ℕ) (out : Output)
    → IsStroke k
    → decode_all no_keys (stroke_bytes k ++ bytes) out ≡ decode_all no_keys bytes (type_key k out)
decode_all-stroke_bytes (plain s) bytes out (f0, e0) = rw (f0, e0) refl
decode_all-stroke_bytes (extended_key s) bytes out (f0, e0) = rw (f0, e0) refl

decode_all-typed :
    (ks : List Stroke) (out : Output)
    → AreStrokes ks
    → decode_all no_keys (all_stroke_bytes ks) out ≡ (no_keys, typed ks out)
decode_all-typed [] out are = refl
decode_all-typed (k ∷ ks) out (fine, are) =
    decode_all-stroke_bytes k (all_stroke_bytes ks) out fine
    ∙ decode_all-typed ks (type_key k out) are

-- A chip is at 0xB4 with FLASH_MODE off and FLASH_PAGE at 0, its RAM holds the bytes of the handoff stub
-- from 0xB4 on, and its flash holds the image that ps2_ascii builds. When the polls of GPIO_IN see frames
-- clocked in one after another, each with eight data bits, whose bytes are those of keys that are pressed
-- and let go one after another (the scancode, 0xF0 and the scancode; for an extended key each time with
-- 0xE0 in front), and no scancode is 0xF0 or 0xE0, the chip comes to page 1 with no flag pending, and the
-- values written to GPIO_OUT since are one character for each key that is not extended, in their order.
pub ps2_ascii-types :
    {D : Type 0} (board : Board) (ram_chips : Psram D) (stub image : List ℕ) (fs : List Frame)
    (ks : List Stroke) (w : ℕ) (r : ℕ → ℕ) (m : Chip D)
    → handoff_stub ≡ ok stub
    → ps2_ascii ≡ ok image
    → HasBytes m.ram 4 stub
    → HasBytes board.flash 0 image
    → m.flash_mode ≡ false
    → m.flash_page ≡ 0
    → AreFrames fs
    → Clocked board (flatten (map line fs)) m.sampled w
    → bytes_of fs ≡ all_stroke_bytes ks
    → AreStrokes ks
    → let out = typed ks (output m) in
      (r' : ℕ → ℕ) × Runs
        (chip_bus board ram_chips)
        (running 0xB4 r, m)
        (
          running 0xB4 r',
          record m {
            flash_mode = true;
            flash_page = 1;
            sampled = w;
            gpio_out = out.gpio;
            written = out.values;
          },
        )
      × Holds r' 0 no_keys
ps2_ascii-types board ram_chips stub image fs ks w r m handed built loaded flashed off first are h
      sent fine =
    let decoded : decode_all no_keys (bytes_of fs) (output m) ≡ (no_keys, typed ks (output m)) =
      ap (λ bytes. decode_all no_keys bytes (output m)) sent
      ∙ decode_all-typed ks (output m) fine in
    subst
      (λ end.
        (r' : ℕ → ℕ) × Runs (chip_bus board ram_chips) (running 0xB4 r, m)
          (
            running 0xB4 r',
            record m {
              flash_mode = true;
              flash_page = 1;
              sampled = w;
              gpio_out = end.1.gpio;
              written = end.1.values;
            },
          )
        × Holds r' 0 end.0)
      decoded
      (ps2_ascii-decodes board ram_chips stub image fs w r m handed built loaded flashed off first
        are h)
