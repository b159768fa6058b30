-- ===== src/Scripts/BootRom/Demo.antt =====
-- The loop of tools/build_boot_rom.py that waits for START, on the chip: it shows its count on LED_OUT,
-- and after 512 rounds it turns FLASH_MODE on and jumps to the window.
use agil_a.Common.{
  ℕ, zero, suc, ◌+◌, ◌/◌, ◌%◌, ◌^◌, ◌<◌, ◌≡◌, refl, ap, subst, ◌∙◌, arith, true, false, List, ◌∷◌,
  bit_and, bit_or,
}
use agil_a.Common.Bits.{bit_and_mask, bit_or_disjoint}
use agil_a.Common.Int.{pos, neg, mask}
use agil_a.Asm.Encode.{addi, andi, or, lw, sw, srli}
use agil_a.Core.Alu.{branch_cond}
use agil_a.Core.Exec.{step, reg, set_reg}
use agil_a.Core.Meaning.{perform}
use agil_a.Core.Runs.{Runs, stop, running, set, Runs-step, Runs-trans}
use agil_a.Chip.Memory.{Board, Psram, Chip, write, chip_bus}
use agil_a.Scripts.Ps2Reader.Pins.{pin}
use agil_a.Scripts.BootRom.Boot.{bit_and_pin2}
use agil_a.Scripts.BootRom.Steps.{HasBootRom, rom-instr, rom-branch, rom-jal, read-pins}

-- The values written to LED_OUT in `n` rounds behind `ws`, the last in front, with the flag `f`.
abbrev pub counted : ℕ → ℕ → List ℕ → List ℕ
counted f zero ws = ws
counted f (suc n) ws = (f + suc n % 16) ∷ counted f n ws

-- A round behind `n` others: the chip, and the registers.
abbrev shown : {D : Type 0} → ℕ → ℕ → Chip D → Chip D
shown f n m = record m {
  sampled = suc m.sampled;
  gpio_out = f + suc n % 16;
  written = (f + suc n % 16) ∷ m.written;
}

-- GPIO_OUT behind `n` rounds.
abbrev pub last_shown : ℕ → ℕ → ℕ → ℕ
last_shown f zero out = out
last_shown f (suc n) out = f + suc n % 16

-- The chip behind `n` rounds.
abbrev pub waited : {D : Type 0} → ℕ → ℕ → Chip D → Chip D
waited f n m = record m {
  sampled = m.sampled + n;
  gpio_out = last_shown f n m.gpio_out;
  written = counted f n m.written;
}

module _ {D : Type 0} (board : Board) (ram_chips : Psram D) (rom : HasBootRom board) where
  -- A round in which START is low, up to the branch at its end.
  Runs-round :
      (f n : ℕ) (r : ℕ → ℕ) (m : Chip D)
      → pin board 2 m.sampled ≡ 0
      → f % 2 ^ 4 ≡ 0
      → f < 129
      → n < 512
      → r 8 ≡ f
      → r 9 ≡ n
      → (r' : ℕ → ℕ) × Runs
          (chip_bus board ram_chips)
          (running 0x1C r, m)
          (running 0x3C r', shown f n m)
        × (r' 3 ≡ suc n / 512)
        × (r' 8 ≡ f)
        × (r' 9 ≡ suc n)
  unfolding perform write branch_cond set_reg reg mask
  Runs-round f n r m low even flagged small eight nine =
      let v : ℕ = board.sample m.sampled 0xF4 % 2 ^ 8 in
      let m₁ = record m { sampled = suc m.sampled } in
      let r₁ = set r 2 v in
      let r₂ = set r₁ 2 0 in
      let r₃ = set r₂ 9 (suc n) in
      let r₄ = set r₃ 3 (suc n % 16) in
      let r₅ = set r₄ 2 (f + suc n % 16) in
      let r₆ = set r₅ 3 (suc n / 512) in
      let first : step (chip_bus board ram_chips) (running 0x1C r, m) ≡ (running 0x20 r₁, m₁) =
        rom-instr board ram_chips rom 7 (lw 2 0 (pos 0xF4)) r m refl (omega arith)
          (omega arith, omega arith, (omega arith, omega arith))
        ∙ ap (λ (p : ℕ × Chip D). (running 0x20 (set r 2 p.0), p.1))
            (read-pins board ram_chips rom m) in
      let level : bit_and v 4 ≡ 0 = omega (arith, bit_and_pin2 v, low) in
      let second : step (chip_bus board ram_chips) (running 0x20 r₁, m₁) ≡ (running 0x24 r₂, m₁) =
        rom-instr board ram_chips rom 8 (andi 2 2 (pos 4)) r₁ m₁ refl (omega arith)
          (omega arith, omega arith, (omega arith, omega arith))
        ∙ ap (λ (x : ℕ). (running 0x24 (set r₁ 2 x), m₁)) level in
      let third =
        rom-branch board ram_chips rom 9 1 2 0 (pos 36) false r₂ m₁ refl (omega arith)
          (omega arith, omega arith, omega arith) refl refl in
      let count : (r 9 + 1) % 2 ^ 32 ≡ suc n = omega (arith, nine) in
      let fourth : step (chip_bus board ram_chips) (running 0x28 r₂, m₁) ≡ (running 0x2C r₃, m₁) =
        rom-instr board ram_chips rom 10 (addi 9 9 (pos 1)) r₂ m₁ refl (omega arith)
          (omega arith, omega arith, (omega arith, omega arith))
        ∙ ap (λ (x : ℕ). (running 0x2C (set r₂ 9 x), m₁)) count in
      let nibble : bit_and (suc n) 0xF ≡ suc n % 16 = bit_and_mask 4 (suc n) in
      let fifth : step (chip_bus board ram_chips) (running 0x2C r₃, m₁) ≡ (running 0x30 r₄, m₁) =
        rom-instr board ram_chips rom 11 (andi 3 9 (pos 0xF)) r₃ m₁ refl (omega arith)
          (omega arith, omega arith, (omega arith, omega arith))
        ∙ ap (λ (x : ℕ). (running 0x30 (set r₃ 3 x), m₁)) nibble in
      let both : bit_or (r 8) (suc n % 16) ≡ f + suc n % 16 =
        ap (λ (x : ℕ). bit_or x (suc n % 16)) eight
        ∙ bit_or_disjoint 4 f (suc n % 16) even (omega arith) in
      let sixth : step (chip_bus board ram_chips) (running 0x30 r₄, m₁) ≡ (running 0x34 r₅, m₁) =
        rom-instr board ram_chips rom 12 (or 2 8 3) r₄ m₁ refl (omega arith)
          (omega arith, omega arith, omega arith)
        ∙ ap (λ (x : ℕ). (running 0x34 (set r₄ 2 x), m₁)) both in
      let byte : (f + suc n % 16) % 2 ^ 8 ≡ f + suc n % 16 = omega arith in
      let seventh : step (chip_bus board ram_chips) (running 0x34 r₅, m₁)
          ≡ (running 0x38 r₅, shown f n m) =
        rom-instr board ram_chips rom 13 (sw 2 0 (pos 0xF0)) r₅ m₁ refl (omega arith)
          (omega arith, omega arith, (omega arith, omega arith))
        ∙ ap (λ (x : ℕ). (running 0x38 r₅, record m₁ { gpio_out = x; written = x ∷ m.written }))
            byte in
      let eighth : step (chip_bus board ram_chips) (running 0x38 r₅, shown f n m)
          ≡ (running 0x3C r₆, shown f n m) =
        rom-instr board ram_chips rom 14 (srli 3 9 (pos 9)) r₅ (shown f n m) refl (omega arith)
          (omega arith, omega arith) in
      (
        r₆,
        Runs-step first (
            Runs-step second (
              Runs-step third (
                Runs-step fourth (
                  Runs-step fifth (Runs-step sixth (Runs-step seventh (Runs-step eighth stop))))))),
        refl,
        eight,
        refl,
      )

  -- `k` rounds, none of them the last, from MAIN_LOOP to MAIN_LOOP.
  pub Runs-rounds :
      (k f : ℕ) (r : ℕ → ℕ) (m : Chip D)
      → ((t : ℕ) → t < k → pin board 2 (m.sampled + t) ≡ 0)
      → f % 2 ^ 4 ≡ 0
      → f < 129
      → k < 512
      → r 8 ≡ f
      → r 9 ≡ 0
      → (r' : ℕ → ℕ) × Runs
          (chip_bus board ram_chips)
          (running 0x1C r, m)
          (running 0x1C r', waited f k m)
        × (r' 8 ≡ f)
        × (r' 9 ≡ k)
  unfolding branch_cond reg mask
  Runs-rounds zero f r m low even flagged small eight nine = (
    r,
    subst
        (λ n.
          Runs (chip_bus board ram_chips) (running 0x1C r, m)
            (running 0x1C r, record m { sampled = n }))
        (omega arith) stop,
    eight,
    nine,
  )
  Runs-rounds (suc k) f r m low even flagged small eight nine =
      let (r₁, run, eight₁, nine₁) =
        Runs-rounds k f r m (λ t h. low t (omega arith)) even flagged (omega arith) eight nine in
      let (r₂, round, three₂, eight₂, nine₂) =
        Runs-round f k r₁ (waited f k m) (low k (omega arith)) even flagged (omega arith) eight₁
          nine₁ in
      let again : r₂ 3 ≡ 0 = omega (arith, three₂) in
      let last =
        rom-branch board ram_chips rom 15 0 3 0 (neg 32) true r₂ (shown f k (waited f k m)) refl
          (omega arith) (omega arith, omega arith, omega arith) refl (ground arith) in
      (
        r₂,
        subst
            (λ n.
              Runs (chip_bus board ram_chips) (running 0x1C r, m)
                (running 0x1C r₂, record (waited f (suc k) m) { sampled = n }))
            (omega arith) (Runs-trans run (Runs-trans round (Runs-step last stop))),
        eight₂,
        nine₂,
      )

  -- The round 512, FLASH_MODE, and the jump to the window.
  Runs-last :
      (f : ℕ) (r : ℕ → ℕ) (m : Chip D)
      → pin board 2 m.sampled ≡ 0
      → f % 2 ^ 4 ≡ 0
      → f < 129
      → r 8 ≡ f
      → r 9 ≡ 511
      → (r' : ℕ → ℕ) × Runs
          (chip_bus board ram_chips)
          (running 0x1C r, m)
          (running 0xB4 r', record (shown f 511 m) { flash_mode = true })
  unfolding perform write branch_cond set_reg reg mask
  Runs-last f r m low even flagged eight nine =
      let (r₁, round, three, _, _) =
        Runs-round f 511 r m low even flagged (omega arith) eight nine in
      let m₁ = shown f 511 m in
      let m₂ = record m₁ { flash_mode = true } in
      let done : r₁ 3 ≡ 1 = three in
      let first =
        rom-branch board ram_chips rom 15 0 3 0 (neg 32) false r₁ m₁ refl (omega arith)
          (omega arith, omega arith, omega arith) refl (ground arith) in
      let second : step (chip_bus board ram_chips) (running 0x40 r₁, m₁) ≡ (running 0x44 r₁, m₂) =
        rom-instr board ram_chips rom 16 (sw 0 0 (pos 0xF8)) r₁ m₁ refl (omega arith)
          (omega arith, omega arith, (omega arith, omega arith)) in
      let third =
        rom-jal board ram_chips rom 17 0 (pos 40) r₁ m₂ refl (omega arith) (omega arith) refl in
      let fourth =
        rom-jal board ram_chips rom 27 0 (pos 72) r₁ m₂ refl (omega arith) (omega arith) refl in
      (
        r₁,
        Runs-trans round
            (Runs-step first (Runs-step second (Runs-step third (Runs-step fourth stop)))),
      )

  -- The whole wait, when START is low at each of its 512 polls.
  pub Runs-timeout :
      (f : ℕ) (r : ℕ → ℕ) (m : Chip D)
      → ((t : ℕ) → t < 512 → pin board 2 (m.sampled + t) ≡ 0)
      → f % 2 ^ 4 ≡ 0
      → f < 129
      → r 8 ≡ f
      → r 9 ≡ 0
      → (r' : ℕ → ℕ) × Runs
          (chip_bus board ram_chips)
          (running 0x1C r, m)
          (running 0xB4 r', record (waited f 512 m) { flash_mode = true })
  Runs-timeout f r m low even flagged eight nine =
      let (r₁, run, eight₁, nine₁) =
        Runs-rounds 511 f r m (λ t h. low t (omega arith)) even flagged (omega arith) eight nine in
      let (r₂, last) =
        Runs-last f r₁ (waited f 511 m) (low 511 (omega arith)) even flagged eight₁ nine₁ in
      (
        r₂,
        subst
            (λ n.
              Runs (chip_bus board ram_chips) (running 0x1C r, m)
                (running 0xB4 r₂, record (waited f 512 m) { sampled = n; flash_mode = true }))
            (omega arith) (Runs-trans run last),
      )
