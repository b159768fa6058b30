-- ===== src/Scripts/BootRom/Literals.antt =====
-- Numbers in the text of boot_rom_body.vh: what a reader takes the digits for that `{i}` and `{w:08x}` of
-- tools/build_boot_rom.py write.
use native.Mathlib.Nat.{pow-suc}
use agil_a.Common.{
  ℕ, zero, suc, ◌+◌, ◌*◌, ◌/◌, ◌%◌, ◌^◌, ◌≤◌, ◌<◌, ◌≡◌, refl, ap, ◌∙◌, arith, Bool, false,
  append_assoc, Option, none, some, List, [], ◌∷◌, ◌++◌, ltb, lt→ltb, Bool-cases, inl, inr, ◌==◌,
  ==_iff, if◌then◌else◌,
}
use agil_a.Scripts.BootRom.Body.{decimal, hex_pad}
use agil_a.Scripts.Hex.{hex_digit, digit_value, digit_value-hex_digit}

abbrev pub or_zero : Option ℕ → ℕ
or_zero none = 0
or_zero (some n) = n

-- A digit of the base.
abbrev pub is_digit : ℕ → Option ℕ → Bool
is_digit base none = false
is_digit base (some d) = ltb d base

-- The digits at the beginning of a text, as many as there are, behind those of `n`; and the rest.
abbrev pub number : ℕ → ℕ → List ℕ → ℕ × List ℕ
number base n [] = (n, [])
number base n (c ∷ text) =
    if is_digit base (digit_value c)
    then number base (n * base + or_zero (digit_value c)) text
    else (n, c ∷ text)

number-digit :
    (base n d : ℕ) (text : List ℕ)
    → d < base
    → base ≤ 16
    → number base n (hex_digit d ∷ text) ≡ number base (n * base + d) text
number-digit base n d text small le =
    rw (digit_value-hex_digit d (omega arith), lt→ltb d base small) refl

-- A decimal number reads back.
pub number-decimal :
    (fuel i : ℕ) (text : List ℕ)
    → i < fuel
    → number 10 0 (decimal fuel i ++ text) ≡ number 10 i text
unfolding decimal
number-decimal zero i text h = absurd (omega arith)
number-decimal (suc fuel) i text h = elim (Bool-cases (i / 10 == 0)) [
  | inl e ↦
      let low : i / 10 ≡ 0 = (==_iff (i / 10) 0).0 e in
      let whole : 0 * 10 + i % 10 ≡ i = omega (arith, low) in
      rw e (
        number-digit 10 0 (i % 10) text (omega arith) (omega arith)
        ∙ ap (λ x. number 10 x text) whole)
  | inr e ↦
      let high : ¬ (i / 10 ≡ 0) = λ z. absurd (cc (e, (==_iff (i / 10) 0).1 z)) in
      let fewer : i / 10 < fuel = omega (arith, high) in
      let whole : i / 10 * 10 + i % 10 ≡ i = omega arith in
      rw e (
        ap (number 10 0) (append_assoc (decimal fuel (i / 10)) (hex_digit (i % 10) ∷ []) text)
        ∙ number-decimal fuel (i / 10) (hex_digit (i % 10) ∷ text) fewer
        ∙ number-digit 10 (i / 10) (i % 10) text (omega arith) (omega arith)
        ∙ ap (λ x. number 10 x text) whole)
]

-- So does a word in hexadecimal.
pub number-hex_pad :
    (k n w : ℕ) (text : List ℕ)
    → w < 16 ^ k
    → number 16 n (hex_pad k w ++ text) ≡ number 16 (n * 16 ^ k + w) text
unfolding hex_pad
number-hex_pad zero n w text small =
    let e : n ≡ n * 16 ^ 0 + w = omega arith in ap (λ x. number 16 x text) e
number-hex_pad (suc k) n w text small =
    let low : w / 16 < 16 ^ k = omega (arith, pow-suc 16 k) in
    let sum : (n * 16 ^ k + w / 16) * 16 + w % 16 ≡ n * 16 ^ suc k + w =
      ground (arith, ap (λ (t : ℕ). n * t) (pow-suc 16 k)) in
    ap (number 16 n) (append_assoc (hex_pad k (w / 16)) (hex_digit (w % 16) ∷ []) text)
    ∙ number-hex_pad k n (w / 16) (hex_digit (w % 16) ∷ text) low
    ∙ number-digit 16 (n * 16 ^ k + w / 16) (w % 16) text (omega arith) (omega arith)
    ∙ ap (λ x. number 16 x text) sum
