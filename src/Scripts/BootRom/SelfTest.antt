-- ===== src/Scripts/BootRom/SelfTest.antt =====
-- The self-test of tools/build_boot_rom.py on the chip, from reset to MAIN_LOOP.
use agil_a.Common.{
  ℕ, ◌%◌, ◌^◌, ◌≡◌, refl, ap, ◌∙◌, arith, true, false, Bool-cases, inl, inr, ◌==◌, if◌then◌else◌,
}
use agil_a.Common.Int.{pos, mask}
use agil_a.Asm.Encode.{addi, lbu, sb}
use agil_a.Core.Alu.{branch_cond}
use agil_a.Core.Exec.{Core, step, reg, set_reg}
use agil_a.Core.Meaning.{perform}
use agil_a.Core.Runs.{Runs, stop, running, set, Runs-step}
use agil_a.Chip.Memory.{Board, Psram, Chip, read, write, chip_bus, psram_dev, in_ext_flash}
use agil_a.Scripts.BootRom.Steps.{HasBootRom, rom-instr, rom-branch}

-- What the PSRAM is after the pattern is written, and what is read back from it.
abbrev pub probed : {D : Type 0} → Psram D → Chip D → ℕ × D
probed ram_chips m = ram_chips.get (ram_chips.put m.psram (psram_dev m) 0 0 0xA5) (psram_dev m) 0 0

-- The fail flag, as bit 7.
abbrev pub failed : ℕ → ℕ
failed v = if v % 2 ^ 8 == 0xA5 then 0 else 0x80

module _ {D : Type 0} (board : Board) (ram_chips : Psram D) (rom : HasBootRom board) where
  read-psram :
      (m : Chip D)
      → read board ram_chips m 0xE0 0
        ≡ (let (v, d) = ram_chips.get m.psram (psram_dev m) 0 0 in (v, record m { psram = d }))
  unfolding read in_ext_flash
  read-psram m = elim (Bool-cases m.flash_mode) [ inl on ↦ rw on refl | inr off ↦ rw off refl ]

  write-psram :
      (m : Chip D) (v : ℕ)
      → write board ram_chips m 0xE0 0 v
        ≡ record m { psram = ram_chips.put m.psram (psram_dev m) 0 0 v }
  unfolding write
  write-psram m v = refl

  -- The core comes to MAIN_LOOP with the fail flag in x8 and no count in x9.
  pub Runs-selftest :
      (r : ℕ → ℕ) (m : Chip D)
      → let (v, d) = probed ram_chips m in
        (r' : ℕ → ℕ) × Runs
          (chip_bus board ram_chips)
          (running 0 r, m)
          (running 0x1C r', record m { psram = d })
        × (r' 8 ≡ failed v)
        × (r' 9 ≡ 0)
  unfolding perform branch_cond set_reg reg mask psram_dev
  Runs-selftest r m =
      let v : ℕ = (probed ram_chips m).0 % 2 ^ 8 in
      let m₁ = record m { psram = ram_chips.put m.psram (psram_dev m) 0 0 0xA5 } in
      let m₂ = record m { psram = (probed ram_chips m).1 } in
      let r₁ = set r 2 0xA5 in
      let r₂ = set r₁ 6 v in
      let r₃ = set r₂ 8 0 in
      let r₄ = set r₃ 8 0x80 in
      let first : step (chip_bus board ram_chips) (running 0 r, m) ≡ (running 4 r₁, m) =
        rom-instr board ram_chips rom 0 (addi 2 0 (pos 0xA5)) r m refl (omega arith)
          (omega arith, omega arith, (omega arith, omega arith)) in
      let second : step (chip_bus board ram_chips) (running 4 r₁, m) ≡ (running 8 r₁, m₁) =
        rom-instr board ram_chips rom 1 (sb 2 0 (pos 0xE0)) r₁ m refl (omega arith)
          (omega arith, omega arith, (omega arith, omega arith))
        ∙ ap (λ (x : Chip D). (running 8 r₁, x)) (write-psram m 0xA5) in
      let third : step (chip_bus board ram_chips) (running 8 r₁, m₁) ≡ (running 12 r₂, m₂) =
        rom-instr board ram_chips rom 2 (lbu 6 0 (pos 0xE0)) r₁ m₁ refl (omega arith)
          (omega arith, omega arith, (omega arith, omega arith))
        ∙ ap (λ (p : ℕ × Chip D). (running 12 (set r₁ 6 (p.0 % 2 ^ 8)), p.1)) (read-psram m₁) in
      let fourth : step (chip_bus board ram_chips) (running 12 r₂, m₂) ≡ (running 16 r₃, m₂) =
        rom-instr board ram_chips rom 3 (addi 8 0 (pos 0)) r₂ m₂ refl (omega arith)
          (omega arith, omega arith, (omega arith, omega arith)) in
      let clears = λ (x : ℕ → ℕ).
        rom-instr board ram_chips rom 6 (addi 9 0 (pos 0)) x m₂ refl (omega arith)
          (omega arith, omega arith, (omega arith, omega arith)) in
      let begins =
        λ (s : Core × Chip D) (later : Runs (chip_bus board ram_chips) (running 16 r₃, m₂) s).
          Runs-step first (Runs-step second (Runs-step third (Runs-step fourth later))) in
      elim (Bool-cases (v == 0xA5)) [
        | inl same ↦ (
          set r₃ 9 0,
          begins (running 0x1C (set r₃ 9 0), m₂)
              (Runs-step
                (rom-branch board ram_chips rom 4 0 6 2 (pos 8) true r₃ m₂ refl (omega arith)
                  (omega arith, omega arith, omega arith) refl same)
                (Runs-step (clears r₃) stop)),
          rw same refl,
          refl,
        )
        | inr other ↦ (
          set r₄ 9 0,
          begins (running 0x1C (set r₄ 9 0), m₂)
              (Runs-step
                (rom-branch board ram_chips rom 4 0 6 2 (pos 8) false r₃ m₂ refl (omega arith)
                  (omega arith, omega arith, omega arith) refl other)
                (Runs-step
                  (rom-instr board ram_chips rom 5 (addi 8 0 (pos 0x80)) r₃ m₂ refl (omega arith)
                    (omega arith, omega arith, (omega arith, omega arith)))
                  (Runs-step (clears r₄) stop))),
          rw other refl,
          refl,
        )
      ]
