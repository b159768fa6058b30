-- ===== src/Scripts/BootRom/Byte.antt =====
-- The routine RECV_BYTE of tools/build_boot_rom.py on the chip: a byte, its highest bit first.
use native.Mathlib.Nat.{pow-suc}
use agil_a.Common.{
  ℕ, zero, suc, ◌+◌, ◌-◌, ◌*◌, ◌%◌, ◌^◌, ◌<◌, ◌≡◌, refl, sym, ap, subst, ◌∙◌, arith, Bool, true,
  false, bit_and, bit_or, if◌then◌else◌, ◌==◌, List, [], ◌∷◌, length,
}
use agil_a.Common.Int.{pos, neg, mask, signed}
use agil_a.Common.Bits.{bit_or_disjoint}
use agil_a.Asm.Bytes.Laws.{AllBelow}
use agil_a.Asm.Encode.{addi, andi, ori, slli, jalr}
use agil_a.Core.Alu.{branch_cond, signed_lt}
use agil_a.Core.Exec.{Core, Bus, step, reg, set_reg}
use agil_a.Core.Meaning.{perform}
use agil_a.Core.Runs.{Runs, stop, running, set, Runs-step, Runs-trans}
use agil_a.Chip.Memory.{Board, Psram, Chip, chip_bus}
use agil_a.Scripts.BootRom.Steps.{HasBootRom, rom-instr, rom-branch}
use agil_a.Scripts.BootRom.Wire.{High, Low, Sent, quiet, pulse, number, bit_and_pin0}
use agil_a.Scripts.BootRom.Bit.{Kept, Runs-High, Runs-Low}

-- The test of the bit counter.
counts : (x : ℕ) → x < 8 → signed_lt x 8 ≡ true
unfolding signed_lt signed
counts x h = ground arith

stops : (x : ℕ) → x ≡ 8 → signed_lt x 8 ≡ false
unfolding signed_lt signed
stops x h = ground arith

-- Eight bits stay within a byte.
room : (x left : ℕ) → suc x * 2 ^ left < 129 → x < 128
room x zero h = omega arith
room x (suc left) h = room x left (omega (arith, ap (λ (n : ℕ). suc x * n) (pow-suc 2 left)))

widen : (x b left : ℕ) → b < 2 → suc x * 2 ^ suc left < 129 → suc (2 * x + b) * 2 ^ left < 129
widen x zero left two h = omega (arith, ap (λ (n : ℕ). suc x * n) (pow-suc 2 left))
widen x (suc zero) left two h = omega (arith, ap (λ (n : ℕ). suc x * n) (pow-suc 2 left))
widen x (suc (suc b)) left two h = absurd (omega arith)

-- The target of the loop's branch, once its test is known.
turn :
    {M : Type 0} {bus : Bus M} {s : Core × M} {taken known : Bool} {r : ℕ → ℕ} {m : M}
    → taken ≡ known
    → Runs bus s (running (if taken then 0x78 else 0xAC) r, m)
    → Runs bus s (running (if known then 0x78 else 0xAC) r, m)
turn {bus = bus} {s = s} {r = r} {m = m} e run =
    subst (λ (b : Bool). Runs bus s (running (if b then 0x78 else 0xAC) r, m)) e run

module _ {D : Type 0} (board : Board) (ram_chips : Psram D) (rom : HasBootRom board) where
  -- The sampled bit in x2 is shifted into x6.
  Runs-shift :
      (b : ℕ) (r : ℕ → ℕ) (m : Chip D)
      → b < 2
      → r 2 % 2 ≡ b
      → r 6 < 128
      → (r' : ℕ → ℕ) × Runs (chip_bus board ram_chips) (running 0x84 r, m) (running 0x94 r', m)
        × Kept r r'
        × (r' 6 ≡ 2 * r 6 + b)
        × (r' 7 ≡ r 7)
  unfolding perform branch_cond set_reg reg mask
  Runs-shift b r m two is small =
      let r₁ = set r 2 b in
      let r₂ = set r₁ 6 (2 * r 6) in
      let bit : bit_and (r 2) 1 ≡ b = bit_and_pin0 (r 2) ∙ is in
      let first : step (chip_bus board ram_chips) (running 0x84 r, m) ≡ (running 0x88 r₁, m) =
        rom-instr board ram_chips rom 33 (andi 2 2 (pos 1)) r m refl (omega arith)
          (omega arith, omega arith, (omega arith, omega arith))
        ∙ ap (λ (v : ℕ). (running 0x88 (set r 2 v), m)) bit in
      let double : r 6 * 2 ^ 1 % 2 ^ 32 ≡ 2 * r 6 = omega arith in
      let second : step (chip_bus board ram_chips) (running 0x88 r₁, m) ≡ (running 0x8C r₂, m) =
        rom-instr board ram_chips rom 34 (slli 6 6 (pos 1)) r₁ m refl (omega arith)
          (omega arith, omega arith)
        ∙ ap (λ (v : ℕ). (running 0x8C (set r₁ 6 v), m)) double in
      let third =
        rom-branch board ram_chips rom 35 0 2 0 (pos 8) (b == 0) r₂ m refl (omega arith)
          (omega arith, omega arith, omega arith) refl refl in
      let (r₃, run, kept, k6, k7) = joined b r₂ m two (omega arith) in
      (r₃, Runs-step first (Runs-step second (Runs-step third run)), kept, k6, k7)
    where
      joined :
          (b : ℕ) (s : ℕ → ℕ) (m : Chip D)
          → b < 2
          → s 6 % 2 ≡ 0
          → (r' : ℕ → ℕ) × Runs
              (chip_bus board ram_chips)
              (running (if b == 0 then 0x94 else 0x90) s, m)
              (running 0x94 r', m)
            × Kept s r'
            × (r' 6 ≡ s 6 + b)
            × (r' 7 ≡ s 7)
      joined zero s m two even = (s, stop, (refl, refl, refl), omega arith, refl)
      joined (suc zero) s m two even =
          let or : bit_or (s 6) 1 ≡ s 6 + 1 = bit_or_disjoint 1 (s 6) 1 even (omega arith) in
          (
            set s 6 (bit_or (s 6) 1),
            Runs-step
                (rom-instr board ram_chips rom 36 (ori 6 6 (pos 1)) s m refl (omega arith)
                  (omega arith, omega arith, (omega arith, omega arith)))
                stop,
            (refl, refl, refl),
            or,
            refl,
          )
      joined (suc (suc b)) s m two even = absurd (omega arith)

  -- One bit, up to the test of the bit counter in x7.
  Runs-bit :
      (b t u w : ℕ) (r : ℕ → ℕ) (m : Chip D)
      → m.sampled ≡ t
      → High board b t u
      → Low board u w
      → b < 2
      → r 6 < 128
      → r 7 < 8
      → (r' : ℕ → ℕ) × Runs
          (chip_bus board ram_chips)
          (running 0x78 r, m)
          (running (if signed_lt (suc (r 7)) 8 then 0x78 else 0xAC) r', record m { sampled = w })
        × Kept r r'
        × (r' 6 ≡ 2 * r 6 + b)
        × (r' 7 ≡ suc (r 7))
  unfolding perform branch_cond set_reg reg mask
  Runs-bit b t u w r m at high low two small count =
      let (r₁, run₁, (a1, a4, a5), a6, a7, is) = Runs-High board ram_chips rom b t u r m at high in
      let (r₂, run₂, (b1, b4, b5), b6, b7) =
        Runs-shift b r₁ (record m { sampled = u }) two is (omega arith) in
      let m₁ = record m { sampled = w } in
      let (r₃, run₃, (c1, c4, c5), c6, c7) =
        Runs-Low board ram_chips rom u w r₂ (record m { sampled = u }) refl low in
      let r₄ = set r₃ 7 (suc (r 7)) in
      let up : (r₃ 7 + 1) % 2 ^ 32 ≡ suc (r 7) = omega (arith, a7, b7, c7) in
      let first : step (chip_bus board ram_chips) (running 0xA0 r₃, m₁) ≡ (running 0xA4 r₄, m₁) =
        rom-instr board ram_chips rom 40 (addi 7 7 (pos 1)) r₃ m₁ refl (omega arith)
          (omega arith, omega arith, (omega arith, omega arith))
        ∙ ap (λ (v : ℕ). (running 0xA4 (set r₃ 7 v), m₁)) up in
      let second =
        rom-instr board ram_chips rom 41 (addi 3 0 (pos 8)) r₄ m₁ refl (omega arith)
          (omega arith, omega arith, (omega arith, omega arith)) in
      let third =
        rom-branch board ram_chips rom 42 4 7 3 (neg 48) (signed_lt (suc (r 7)) 8) (set r₄ 3 8) m₁
          refl (omega arith) (omega arith, omega arith, omega arith) refl refl in
      (
        set r₄ 3 8,
        Runs-trans run₁ (
            Runs-trans run₂
              (Runs-trans run₃ (Runs-step first (Runs-step second (Runs-step third stop))))),
        (c1 ∙ b1 ∙ a1, c4 ∙ b4 ∙ a4, c5 ∙ b5 ∙ a5),
        omega (arith, c6, b6, a6),
        refl,
      )

  -- The bits that are left, up to the return.
  Runs-bits :
      (bits : List ℕ) (b n t w : ℕ) (r : ℕ → ℕ) (m : Chip D)
      → m.sampled ≡ t
      → Sent board (b ∷ bits) t w
      → AllBelow 2 (b ∷ bits)
      → suc (r 6) * 2 ^ length bits < 129
      → r 7 ≡ n
      → n + length bits ≡ 7
      → (r' : ℕ → ℕ) × Runs
          (chip_bus board ram_chips)
          (running 0x78 r, m)
          (running 0xAC r', record m { sampled = w })
        × Kept r r'
        × (r' 6 ≡ number (r 6) (b ∷ bits))
  Runs-bits [] b n t w r m at (pulse {u = u} high low quiet) (two, _) small count full =
      let (r₁, run, kept, k6, k7) =
        Runs-bit b t u w r m at high low two (room (r 6) 0 small) (omega arith) in
      let done : signed_lt (suc (r 7)) 8 ≡ false = stops (suc (r 7)) (omega arith) in
      (r₁, turn done run, kept, k6)
  Runs-bits (c ∷ bits) b n t w r m at (pulse {u = u} {v = v} high low rest) (two, below) small count
        full =
      let (r₁, run, (k1, k4, k5), k6, k7) =
        Runs-bit b t u v r m at high low two (room (r 6) (suc (length bits)) small) (omega arith) in
      let again : signed_lt (suc (r 7)) 8 ≡ true = counts (suc (r 7)) (omega arith) in
      let wide =
        subst (λ x. suc x * 2 ^ length bits < 129) (sym k6)
          (widen (r 6) b (length bits) two small) in
      let (r₂, run₂, (l1, l4, l5), l6) =
        Runs-bits bits c (suc n) v w r₁ (record m { sampled = v }) refl rest below wide
          (k7 ∙ ap suc count) (omega arith) in
      (
        r₂,
        Runs-trans (turn again run) run₂,
        (l1 ∙ k1, l4 ∙ k4, l5 ∙ k5),
        l6 ∙ ap (λ x. number x (c ∷ bits)) k6,
      )

  -- RECV_BYTE: eight bits into x6, then back to the address in x1.
  pub Runs-byte :
      (bits : List ℕ) (t w back : ℕ) (r : ℕ → ℕ) (m : Chip D)
      → m.sampled ≡ t
      → Sent board bits t w
      → AllBelow 2 bits
      → length bits ≡ 8
      → r 1 ≡ back
      → back < 256
      → back % 2 ≡ 0
      → (r' : ℕ → ℕ) × Runs
          (chip_bus board ram_chips)
          (running 0x70 r, m)
          (running back r', record m { sampled = w })
        × Kept r r'
        × (r' 6 ≡ number 0 bits)
  unfolding perform set_reg reg mask
  Runs-byte [] t w back r m at sent below eight here small even = absurd (omega arith)
  Runs-byte (b ∷ bits) t w back r m at sent below eight here small even =
      let r₁ = set r 6 0 in
      let r₂ = set r₁ 7 0 in
      let m₁ = record m { sampled = w } in
      let first =
        rom-instr board ram_chips rom 28 (addi 6 0 (pos 0)) r m refl (omega arith)
          (omega arith, omega arith, (omega arith, omega arith)) in
      let second =
        rom-instr board ram_chips rom 29 (addi 7 0 (pos 0)) r₁ m refl (omega arith)
          (omega arith, omega arith, (omega arith, omega arith)) in
      let seven : length bits ≡ 7 = omega arith in
      let (r₃, run, (k1, k4, k5), k6) =
        Runs-bits bits b 0 t w r₂ m at sent below
          (subst (λ n. 1 * 2 ^ n < 129) (sym seven) (omega arith)) refl (omega arith) in
      let home : (r₃ 1 + 0) % 2 ^ 32 % 256 - (r₃ 1 + 0) % 2 ^ 32 % 256 % 2 ≡ back = omega arith in
      let third : step (chip_bus board ram_chips) (running 0xAC r₃, m₁) ≡ (running back r₃, m₁) =
        rom-instr board ram_chips rom 43 (jalr 0 1 (pos 0)) r₃ m₁ refl (omega arith)
          (omega arith, omega arith, (omega arith, omega arith))
        ∙ ap (λ (p : ℕ). (running p r₃, m₁)) home in
      (
        r₃,
        Runs-step first (Runs-step second (Runs-trans run (Runs-step third stop))),
        (k1, k4, k5),
        k6,
      )
