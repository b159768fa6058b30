-- ===== src/Scripts/Hex.antt =====
-- The .hex files that the scripts of tools/ write: a line of two hexadecimal digits for each byte.
use agil_a.Common.{
  ℕ, ◌+◌, ◌-◌, ◌*◌, ◌/◌, ◌%◌, ◌<◌, ◌≡◌, refl, arith, Option, none, some, List, [], ◌∷◌, ◌++◌, ltb,
  leb, ◌&&◌, ◌==◌, if◌then◌else◌,
}
use agil_a.Asm.Bytes.Laws.{AllBelow}

-- A digit of `x` in a format string.
unfoldable pub hex_digit : ℕ → ℕ
hex_digit d = if ltb d 10 then b'0' + d else b'a' + (d - 10)

-- `f"{b:02x}\n"`, for a byte.
unfoldable pub hex_line : ℕ → List ℕ
unfolding hex_digit
hex_line b = hex_digit (b / 16) ∷ hex_digit (b % 16) ∷ b'\n' ∷ []

-- `for b in image: f.write(f"{b:02x}\n")`
unfoldable pub hex_file : List ℕ → List ℕ
unfolding hex_line
hex_file [] = []
hex_file (b ∷ bytes) = hex_line b ++ hex_file bytes

-- What a reader of such a file takes each line for: `0` to `9`, then `a` to `f`.
abbrev pub digit_value : ℕ → Option ℕ
digit_value c =
    if leb b'0' c && leb c b'9'
    then some (c - b'0')
    else if leb b'a' c && leb c b'f'
    then some (c - b'a' + 10)
    else none

abbrev pub line_value : Option ℕ → Option ℕ → ℕ → Option ℕ
line_value (some high) (some low) end = if end == b'\n' then some (high * 16 + low) else none
line_value high low end = none

abbrev pub with_rest : Option ℕ → Option (List ℕ) → Option (List ℕ)
with_rest (some b) (some bytes) = some (b ∷ bytes)
with_rest b bytes = none

abbrev pub read_hex : List ℕ → Option (List ℕ)
read_hex [] = some []
read_hex (c ∷ d ∷ e ∷ text) =
    with_rest (line_value (digit_value c) (digit_value d) e) (read_hex text)
read_hex text = none

pub digit_value-hex_digit : (d : ℕ) → d < 16 → digit_value (hex_digit d) ≡ some d
unfolding hex_digit
digit_value-hex_digit d small = ground arith

-- The file of bytes reads back as the bytes.
pub read_hex-hex_file :
    (bytes : List ℕ) → AllBelow 256 bytes → read_hex (hex_file bytes) ≡ some bytes
unfolding hex_file hex_line
read_hex-hex_file [] below = refl
read_hex-hex_file (b ∷ bytes) (small, below) =
    let whole : b / 16 * 16 + b % 16 ≡ b = omega arith in
    rw
      (
        digit_value-hex_digit (b / 16) (omega arith),
        digit_value-hex_digit (b % 16) (omega arith),
        read_hex-hex_file bytes below,
        whole,
      )
      refl
