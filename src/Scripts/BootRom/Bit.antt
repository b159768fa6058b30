-- ===== src/Scripts/BootRom/Bit.antt =====
-- The routine RECV_BYTE of tools/build_boot_rom.py on the chip: one bit.
use agil_a.Common.{
  some, get_elem?, ℕ, suc, ◌+◌, ◌*◌, ◌%◌, ◌^◌, ◌<◌, ◌≡◌, refl, sym, ap, subst, ◌∙◌, arith, true,
  false, bit_and, if◌then◌else◌, ◌==◌,
}
use agil_a.Common.Int.{pos, neg, mask}
use agil_a.Asm.Encode.{word, andi, lw}
use agil_a.Core.Alu.{branch_cond}
use agil_a.Core.Exec.{Core, step, reg, set_reg}
use agil_a.Core.Meaning.{perform}
use agil_a.Core.Runs.{Runs, stop, running, set, Runs-step}
use agil_a.Chip.Memory.{Board, Psram, Chip, chip_bus}
use agil_a.Scripts.Ps2Reader.Pins.{pin}
use agil_a.Scripts.BootRom.Steps.{boot_words, HasBootRom, rom-instr, rom-branch, read-pins}
use agil_a.Scripts.BootRom.Wire.{High, rises, is_low, Low, falls, is_high, bit_and_pin1}

-- The registers that a bit leaves alone.
abbrev pub Kept : (ℕ → ℕ) → (ℕ → ℕ) → Type 0
Kept r r' = (r' 1 ≡ r 1) × (r' 4 ≡ r 4) × (r' 5 ≡ r 5)

module _ {D : Type 0} (board : Board) (ram_chips : Psram D) (rom : HasBootRom board) where
  -- The first poll of a loop, at word `i`, that puts GPIO_IN in x2.
  poll :
      (i : ℕ) (r : ℕ → ℕ) (m : Chip D)
      → i < 44
      → get_elem? boot_words i ≡ some (word (lw 2 0 (pos 0xF4)))
      → step (chip_bus board ram_chips) (running (i * 4) r, m) ≡ (
        running ((i * 4 + 4) % 256) (set r 2 (board.sample m.sampled 0xF4 % 2 ^ 8)),
        record m { sampled = suc m.sampled },
      )
  unfolding perform set_reg reg mask
  poll i r m h at =
      rom-instr board ram_chips rom i (lw 2 0 (pos 0xF4)) r m at h
        (omega arith, omega arith, (omega arith, omega arith))
      ∙ ap (λ (p : ℕ × Chip D). (running ((i * 4 + 4) % 256) (set r 2 p.0), p.1))
          (read-pins board ram_chips rom m)

  -- One poll of BIT_WAIT_HIGH: GPIO_IN in x2, and CLOCK's bit in x3.
  sample_high :
      (n : ℕ) (r : ℕ → ℕ) (m : Chip D) (s : Core × Chip D)
      → pin board 1 m.sampled ≡ n
      → let r₂ = set (set r 2 (board.sample m.sampled 0xF4 % 2 ^ 8)) 3 (n * 2) in
        Runs
          (chip_bus board ram_chips)
          (running (if n * 2 == 0 then 0x78 else 0x84) r₂, record m { sampled = suc m.sampled })
          s
        → Runs (chip_bus board ram_chips) (running 0x78 r, m) s
  unfolding perform set_reg branch_cond reg mask
  sample_high n r m s is later =
      let v : ℕ = board.sample m.sampled 0xF4 % 2 ^ 8 in
      let m₁ = record m { sampled = suc m.sampled } in
      let r₁ = set r 2 v in
      let level : bit_and v 2 ≡ n * 2 = omega (arith, bit_and_pin1 v, is) in
      let second =
        rom-instr board ram_chips rom 31 (andi 3 2 (pos 2)) r₁ m₁ refl (omega arith)
          (omega arith, omega arith, (omega arith, omega arith))
        ∙ ap (λ (x : ℕ). (running 0x80 (set r₁ 3 x), m₁)) level in
      let third =
        rom-branch board ram_chips rom 32 0 3 0 (neg 8) (n * 2 == 0) (set r₁ 3 (n * 2)) m₁ refl
          (omega arith) (omega arith, omega arith, omega arith) refl refl in
      Runs-step (poll 30 r m (omega arith) refl) (Runs-step second (Runs-step third later))

  -- BIT_WAIT_HIGH, up to the first poll that sees CLOCK high.
  pub Runs-High :
      (b t u : ℕ) (r : ℕ → ℕ) (m : Chip D)
      → m.sampled ≡ t
      → High board b t u
      → (r' : ℕ → ℕ) × Runs
          (chip_bus board ram_chips)
          (running 0x78 r, m)
          (running 0x84 r', record m { sampled = u })
        × Kept r r'
        × (r' 6 ≡ r 6)
        × (r' 7 ≡ r 7)
        × (r' 2 % 2 ≡ b)
  Runs-High b t u r m at (rises high is) =
      let v : ℕ = board.sample m.sampled 0xF4 % 2 ^ 8 in
      let r₂ = set (set r 2 v) 3 2 in
      (
        r₂,
        sample_high 1 r m (running 0x84 r₂, record m { sampled = u }) (ap (pin board 1) at ∙ high)
            (subst
              (λ n.
                Runs (chip_bus board ram_chips) (running 0x84 r₂, record m { sampled = suc n })
                  (running 0x84 r₂, record m { sampled = suc t }))
              (sym at) stop),
        (refl, refl, refl),
        refl,
        refl,
        omega (arith, ap (pin board 0) at, is),
      )
  Runs-High b t u r m at (is_low low later) =
      let v : ℕ = board.sample m.sampled 0xF4 % 2 ^ 8 in
      let (r', run, kept, k6, k7, is) =
        Runs-High b (suc t) u (set (set r 2 v) 3 0) (record m { sampled = suc m.sampled })
          (ap suc at) later in
      (
        r',
        sample_high 0 r m (running 0x84 r', record m { sampled = u }) (ap (pin board 1) at ∙ low)
            run,
        kept,
        k6,
        k7,
        is,
      )

  -- One poll of BIT_WAIT_LOW, with CLOCK's bit in x2.
  sample_low :
      (n : ℕ) (r : ℕ → ℕ) (m : Chip D) (s : Core × Chip D)
      → pin board 1 m.sampled ≡ n
      → let r₂ = set (set r 2 (board.sample m.sampled 0xF4 % 2 ^ 8)) 2 (n * 2) in
        Runs
          (chip_bus board ram_chips)
          (
            running (if (if n * 2 == 0 then false else true) then 0x94 else 0xA0) r₂,
            record m { sampled = suc m.sampled },
          )
          s
        → Runs (chip_bus board ram_chips) (running 0x94 r, m) s
  unfolding perform set_reg branch_cond reg mask
  sample_low n r m s is later =
      let v : ℕ = board.sample m.sampled 0xF4 % 2 ^ 8 in
      let m₁ = record m { sampled = suc m.sampled } in
      let r₁ = set r 2 v in
      let level : bit_and v 2 ≡ n * 2 = omega (arith, bit_and_pin1 v, is) in
      let second =
        rom-instr board ram_chips rom 38 (andi 2 2 (pos 2)) r₁ m₁ refl (omega arith)
          (omega arith, omega arith, (omega arith, omega arith))
        ∙ ap (λ (x : ℕ). (running 0x9C (set r₁ 2 x), m₁)) level in
      let third =
        rom-branch board ram_chips rom 39 1 2 0 (neg 8) (if n * 2 == 0 then false else true)
          (set r₁ 2 (n * 2)) m₁ refl (omega arith) (omega arith, omega arith, omega arith) refl
          refl in
      Runs-step (poll 37 r m (omega arith) refl) (Runs-step second (Runs-step third later))

  -- BIT_WAIT_LOW, up to the first poll that sees CLOCK low.
  pub Runs-Low :
      (t u : ℕ) (r : ℕ → ℕ) (m : Chip D)
      → m.sampled ≡ t
      → Low board t u
      → (r' : ℕ → ℕ) × Runs
          (chip_bus board ram_chips)
          (running 0x94 r, m)
          (running 0xA0 r', record m { sampled = u })
        × Kept r r'
        × (r' 6 ≡ r 6)
        × (r' 7 ≡ r 7)
  Runs-Low t u r m at (falls low) =
      let v : ℕ = board.sample m.sampled 0xF4 % 2 ^ 8 in
      let r₂ = set (set r 2 v) 2 0 in
      (
        r₂,
        sample_low 0 r m (running 0xA0 r₂, record m { sampled = u }) (ap (pin board 1) at ∙ low)
            (subst
              (λ n.
                Runs (chip_bus board ram_chips) (running 0xA0 r₂, record m { sampled = suc n })
                  (running 0xA0 r₂, record m { sampled = suc t }))
              (sym at) stop),
        (refl, refl, refl),
        refl,
        refl,
      )
  Runs-Low t u r m at (is_high high later) =
      let v : ℕ = board.sample m.sampled 0xF4 % 2 ^ 8 in
      let (r', run, kept, k6, k7) =
        Runs-Low (suc t) u (set (set r 2 v) 2 2) (record m { sampled = suc m.sampled }) (ap suc at)
          later in
      (
        r',
        sample_low 1 r m (running 0xA0 r', record m { sampled = u }) (ap (pin board 1) at ∙ high)
            run,
        kept,
        k6,
        k7,
      )
