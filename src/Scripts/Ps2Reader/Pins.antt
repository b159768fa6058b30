-- ===== src/Scripts/Ps2Reader/Pins.antt =====
-- What a PS/2 keyboard does on the pins that tools/build_ps2_reader.py names, as the polls of GPIO_IN
-- see it.
use agil_a.Common.{ℕ, suc, ◌^◌, ◌-◌, ◌*◌, ◌/◌, ◌%◌, ◌≡◌, List, [], ◌∷◌, arith, bit_and}
use agil_a.Common.Bits.{bit_and-zero}
use agil_a.Common.Bits.Step.{bit_and_step}
use agil_a.Chip.Memory.{Board}

-- Pin `i` of the eight inputs, at poll `t`.
abbrev pub pin : Board → ℕ → ℕ → ℕ
pin board i t = board.sample t 0xF4 / 2 ^ i % 2

abbrev pub clock : Board → ℕ → ℕ
clock board t = pin board 3 t

abbrev pub data_pin : Board → ℕ → ℕ
data_pin board t = pin board 4 t

-- From poll `t` on CLOCK is first seen at `level` in the poll before `u`, with DATA at `b`.
pub data Edge (board : Board) (level b : ℕ) : ℕ → ℕ → Type 0 where
  seen : {t : ℕ} → clock board t ≡ level → data_pin board t ≡ b → Edge board level b t (suc t)
  waits :
      {t u : ℕ} → clock board t ≡ 1 - level → Edge board level b (suc t) u → Edge board level b t u

-- CLOCK goes low and high once for each bit, and DATA has the bit when CLOCK is first seen low.
pub data Clocked (board : Board) : List ℕ → ℕ → ℕ → Type 0 where
  idle : {t : ℕ} → Clocked board [] t t
  bit :
      {b c t u v w : ℕ} {bs : List ℕ}
      → Edge board 0 b t u
      → Edge board 1 c u v
      → Clocked board bs v w
      → Clocked board (b ∷ bs) t w

-- `andi` with the mask of a pin.
pub bit_and_pin3 : (v : ℕ) → bit_and v 8 ≡ v / 8 % 2 * 8
bit_and_pin3 v = omega (
  arith,
  bit_and_step v 8,
  bit_and_step (v / 2) 4,
  bit_and_step (v / 2 / 2) 2,
  bit_and_step (v / 2 / 2 / 2) 1,
  bit_and-zero (v / 2 / 2 / 2 / 2),
)

pub bit_and_pin4 : (v : ℕ) → bit_and v 16 ≡ v / 16 % 2 * 16
bit_and_pin4 v = omega (arith, bit_and_step v 16, bit_and_pin3 (v / 2))
