-- ===== src/Scripts/BootRom/Body.antt =====
-- The file boot_rom_body.vh that tools/build_boot_rom.py writes for src/mem.v: a case arm for each word of
-- the ROM.
use Prim.Native.String.{String}
use Prim.Native.Char.{code}
use agil_a.Common.{
  ℕ, zero, suc, ◌/◌, ◌%◌, List, [], ◌∷◌, ◌++◌, Result, ok, ◌>>=◌, ◌==◌, if◌then◌else◌,
}
use agil_a.Scripts.BootRom.{boot_rom}
use agil_a.Scripts.Hex.{hex_digit}

-- The code points of a text.
abbrev pub codes : String → List ℕ
codes String.[] = []
codes (String.◌∷◌ c s) = code c ∷ codes s

-- `{i}`: the decimal digits; `suc i` rounds are enough, since each divides by ten.
unfoldable pub decimal : ℕ → ℕ → List ℕ
unfolding hex_digit
decimal zero i = []
decimal (suc fuel) i =
    let rest = decimal fuel (i / 10) in
    (if i / 10 == 0 then [] else rest) ++ hex_digit (i % 10) ∷ []

-- `{w:08x}`, for a word of 32 bits: `n` digits.
unfoldable pub hex_pad : ℕ → ℕ → List ℕ
unfolding hex_digit
hex_pad zero w = []
hex_pad (suc n) w = hex_pad n (w / 16) ++ hex_digit (w % 16) ∷ []

-- `f"                6'd{i}: rom_word_at = 32'h{w:08x};\n"`
unfoldable pub arm_line : ℕ → ℕ → List ℕ
unfolding decimal hex_pad
arm_line i w =
    codes "                6'd"
    ++ decimal (suc i) i
    ++ codes ": rom_word_at = 32'h"
    ++ hex_pad 8 w
    ++ b';' ∷ b'\n' ∷ []

-- `for i, w in enumerate(words)`, from index `i` on.
unfoldable pub body_lines : ℕ → List ℕ → List ℕ
unfolding arm_line
body_lines i [] = []
body_lines i (w ∷ words) = arm_line i w ++ body_lines (suc i) words

unfoldable pub boot_rom_body : Result (List ℕ)
unfolding boot_rom body_lines
boot_rom_body = boot_rom >>= λ words. ok (body_lines 0 words)
