-- ===== src/Common/Bits.antt =====
-- Python's `<<`, `>>`, `|` and `&` on numbers that are not negative, and `|` of disjoint fields
-- and `&` with a mask of ones as arithmetic.
pub mod Step
use Step.{bit_or_step, bit_and_step}
use Prim.Native.Nat.{
  ℕ, zero, suc, ◌+◌, ◌-◌, ◌*◌, ◌/◌, ◌%◌, ◌^◌, ◌<◌, bit_and, bit_or, bit_or-bitwise,
}
use mathlib.Core.Path.{◌≡◌, refl, ap}
use native.Mathlib.Nat.{pow-suc, one-le-pow}
use native.Mathlib.Omega.{arith}

infixl 60 ◌<<<◌ ◌>>>◌
abbrev pub ◌<<<◌ : ℕ → ℕ → ℕ
x <<< k = x * 2 ^ k

abbrev pub ◌>>>◌ : ℕ → ℕ → ℕ
x >>> k = x / 2 ^ k

infixl 46 ◌|||◌
abbrev pub ◌|||◌ : ℕ → ℕ → ℕ
a ||| b = bit_or a b

infixl 55 ◌&&&◌
abbrev pub ◌&&&◌ : ℕ → ℕ → ℕ
a &&& b = bit_and a b

-- Halving reaches 0, so `fuel` need only cover the first operand.
bit_or-zero_within : (fuel a : ℕ) → a < suc fuel → bit_or a 0 ≡ a
bit_or-zero_within fuel zero h = refl
bit_or-zero_within zero (suc a) h = absurd (omega arith)
bit_or-zero_within (suc fuel) (suc a) h =
    omega (arith, bit_or_step (suc a) 0, bit_or-zero_within fuel (suc a / 2) (omega arith))

bit_and-zero_within : (fuel a : ℕ) → a < suc fuel → bit_and a 0 ≡ 0
bit_and-zero_within fuel zero h = refl
bit_and-zero_within zero (suc a) h = absurd (omega arith)
bit_and-zero_within (suc fuel) (suc a) h =
    omega (arith, bit_and_step (suc a) 0, bit_and-zero_within fuel (suc a / 2) (omega arith))

-- `|` of a multiple of `2 ^ k` and a number of `k` bits is their sum.
bit_or_fields : (k q r : ℕ) → r < 2 ^ k → bit_or (q * 2 ^ k) r ≡ q * 2 ^ k + r
bit_or_fields zero q r h = ground (arith, bit_or-zero_within q q)
bit_or_fields (suc k) q r h = ground (
  arith,
  bit_or_step (q * 2 ^ suc k) r,
  pow-suc 2 k,
  ap (λ (t : ℕ). q * t) (pow-suc 2 k),
  bit_or_fields k q (r / 2),
)

pub bit_or_disjoint : (k a r : ℕ) → a % 2 ^ k ≡ 0 → r < 2 ^ k → bit_or a r ≡ a + r
bit_or_disjoint k a r low h =
    let whole : a ≡ a / 2 ^ k * 2 ^ k = grind arith in rw whole (bit_or_fields k (a / 2 ^ k) r h)

bit_and_fields : (k q r : ℕ) → r < 2 ^ k → bit_and (q * 2 ^ k + r) (2 ^ k - 1) ≡ r
bit_and_fields zero q r h = ground (arith, bit_and-zero_within q q)
bit_and_fields (suc k) q r h = ground (
  arith,
  bit_and_step (q * 2 ^ suc k + r) (2 ^ suc k - 1),
  pow-suc 2 k,
  ap (λ (t : ℕ). q * t) (pow-suc 2 k),
  bit_and_fields k q (r / 2),
)

-- A mask of `k` ones is the remainder by `2 ^ k`.
pub bit_and_mask : (k a : ℕ) → bit_and a (2 ^ k - 1) ≡ a % 2 ^ k
bit_and_mask k a = ground (arith, one-le-pow k 2, bit_and_fields k (a / 2 ^ k) (a % 2 ^ k))

pub bit_and-zero : (a : ℕ) → bit_and a 0 ≡ 0
bit_and-zero a = bit_and-zero_within a a (omega arith)

-- The operands of `|` change places.
bit_or_comm_within : (fuel a b : ℕ) → a < suc fuel → bit_or a b ≡ bit_or b a
bit_or_comm_within fuel zero b h =
    omega (arith, bit_or-bitwise 0 b, bit_or-zero_within b b (omega arith))
bit_or_comm_within zero (suc a) b h = absurd (omega arith)
bit_or_comm_within (suc fuel) (suc a) b h = omega (
  arith,
  bit_or_step (suc a) b,
  bit_or_step b (suc a),
  bit_or_comm_within fuel (suc a / 2) (b / 2) (omega arith),
)

pub bit_or_comm : (a b : ℕ) → bit_or a b ≡ bit_or b a
bit_or_comm a b = bit_or_comm_within a a b (omega arith)
