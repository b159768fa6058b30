-- ===== src/Scripts/BootRom/Wire.antt =====
-- What a host does on the pins that tools/build_boot_rom.py names, as the polls of GPIO_IN see it: CLOCK
-- is pin 1 and DATA is pin 0.
use agil_a.Common.{ℕ, suc, ◌+◌, ◌*◌, ◌/◌, ◌%◌, ◌≡◌, List, [], ◌∷◌, arith, bit_and}
use agil_a.Common.Bits.{bit_and-zero, bit_and_mask}
use agil_a.Common.Bits.Step.{bit_and_step}
use agil_a.Chip.Memory.{Board}
use agil_a.Scripts.Ps2Reader.Pins.{pin}

-- CLOCK is first seen high in the poll before `u`, with DATA at `b`.
pub data High (board : Board) (b : ℕ) : ℕ → ℕ → Type 0 where
  rises : {t : ℕ} → pin board 1 t ≡ 1 → pin board 0 t ≡ b → High board b t (suc t)
  is_low : {t u : ℕ} → pin board 1 t ≡ 0 → High board b (suc t) u → High board b t u

-- CLOCK is first seen low in the poll before `u`.
pub data Low (board : Board) : ℕ → ℕ → Type 0 where
  falls : {t : ℕ} → pin board 1 t ≡ 0 → Low board t (suc t)
  is_high : {t u : ℕ} → pin board 1 t ≡ 1 → Low board (suc t) u → Low board t u

-- The host sends bits: DATA has each of them when CLOCK is first seen high.
pub data Sent (board : Board) : List ℕ → ℕ → ℕ → Type 0 where
  quiet : {t : ℕ} → Sent board [] t t
  pulse :
      {b t u v w : ℕ} {bs : List ℕ}
      → High board b t u
      → Low board u v
      → Sent board bs v w
      → Sent board (b ∷ bs) t w

-- The number that bits stand for, the highest first, after `acc`.
abbrev pub number : ℕ → List ℕ → ℕ
number acc [] = acc
number acc (b ∷ bs) = number (2 * acc + b) bs

pub bit_and_pin1 : (v : ℕ) → bit_and v 2 ≡ v / 2 % 2 * 2
bit_and_pin1 v = omega (arith, bit_and_step v 2, bit_and_step (v / 2) 1, bit_and-zero (v / 2 / 2))

pub bit_and_pin0 : (v : ℕ) → bit_and v 1 ≡ v % 2
bit_and_pin0 v = omega (arith, bit_and_mask 1 v)
