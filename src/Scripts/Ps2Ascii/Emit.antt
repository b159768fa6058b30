-- ===== src/Scripts/Ps2Ascii/Emit.antt =====
-- The pages of tools/build_ps2_ascii.py that give a character: the dispatch, the table and EMIT_PAGE.
use agil_a.Common.{ℕ, ◌+◌, ◌%◌, ◌^◌, ◌<◌, ◌≡◌, refl, ap, ◌∙◌, arith, true, false, ◌∷◌}
use agil_a.Common.Int.{pos, mask, signed}
use agil_a.Asm.Encode.{add, addi, sw}
use agil_a.Core.Alu.{branch_cond, signed_lt}
use agil_a.Scripts.Ps2Ascii.{ascii_of}
use agil_a.Core.Exec.{step, reg, set_reg}
use agil_a.Core.Meaning.{perform}
use agil_a.Core.Runs.{set, Runs, running, Runs-step, Runs-trans}
use agil_a.Chip.Memory.{Board, Psram, Chip, write, chip_bus}
use agil_a.Chip.Run.{step-load, HasWords, step-instr, step-branch, step-jump, Runs-nops, Runs-leave}
use agil_a.Scripts.Ps2Reader.Poll.{switch_words, Runs-switch}
use agil_a.Scripts.Ps2Reader.Frame.{Bounces}
use agil_a.Scripts.Ps2Ascii.Decoder.{ascii_of-below}
use agil_a.Scripts.Ps2Ascii.Pages.{dispatch_words, emit_words, entry_words}
use agil_a.Scripts.Ps2Ascii.Process.{Moves}

module _ {D : Type 0} (board : Board) (ram_chips : Psram D) (m : Chip D)
    (mode : m.flash_mode ≡ true) (ends : Bounces board 256) where
  -- PROCESS_DISPATCH: a byte up to 226 has a page of its own, and the others have that of 0.
  pub dispatch_in :
      (byte : ℕ) (r : ℕ → ℕ)
      → HasWords board 27 0 dispatch_words
      → r 4 ≡ byte
      → byte < 227
      → Moves board ram_chips m mode 27 r (29 + byte) (set (set (set r 7 226) 7 29) 30 (29 + byte))
  unfolding branch_cond signed_lt signed reg mask perform set_reg
  dispatch_in byte r (w0, (w1, (w2, (w3, (w4, (w5, code)))))) is small =
      let m' = record m { flash_page = 27 } in
      let r₁ = set r 7 226 in
      let r₂ = set r₁ 7 29 in
      let r₃ = set r₂ 30 (29 + byte) in
      let sum : (r 4 + 29) % 2 ^ 32 ≡ 29 + byte = omega (arith, is) in
      let adds : step (chip_bus board ram_chips) (running 0xC0 r₂, m') ≡ (running 0xC4 r₃, m') =
        step-instr board ram_chips 27 3 (add 30 4 7) r₂ m' w3 (mode, refl) (omega arith)
          (omega arith, omega arith, omega arith)
        ∙ ap (λ (v : ℕ). (running 0xC4 (set r₂ 30 v), m')) sum in
      Runs-step
        (step-load board ram_chips m mode 27 0 6 226 r w0 (omega arith) (omega arith) (omega arith))
        (Runs-step
          (step-branch board ram_chips 27 1 4 7 4 (pos 16) false r₁ m' w1 (mode, refl) (omega arith)
            (omega arith, omega arith, omega arith) refl (ground arith))
          (Runs-step
            (step-load board ram_chips m mode 27 2 6 29 r₁ w2 (omega arith) (omega arith)
              (omega arith))
            (Runs-step adds (
              Runs-step
                (step-jump board ram_chips 27 4 (pos 8) r₃ m' w4 (mode, refl) (omega arith) refl)
                (Runs-leave board ram_chips 3 6 27 (29 + byte) r₃ m' code
                  (ends (29 + byte) (omega arith)) (mode, refl) refl refl (omega arith))))))

  pub dispatch_out :
      (byte : ℕ) (r : ℕ → ℕ)
      → HasWords board 27 0 dispatch_words
      → r 4 ≡ byte
      → 226 < byte
      → byte < 256
      → Moves board ram_chips m mode 27 r 29 (set (set r 7 226) 30 29)
  unfolding branch_cond signed_lt signed reg mask
  dispatch_out byte r (w0, (w1, (w2, (w3, (w4, (w5, code)))))) is above small =
      let m' = record m { flash_page = 27 } in
      let r₁ = set r 7 226 in
      Runs-step
        (step-load board ram_chips m mode 27 0 6 226 r w0 (omega arith) (omega arith) (omega arith))
        (Runs-step
          (step-branch board ram_chips 27 1 4 7 4 (pos 16) true r₁ m' w1 (mode, refl) (omega arith)
            (omega arith, omega arith, omega arith) refl (ground arith))
          (Runs-step
            (step-load board ram_chips m mode 27 5 29 29 r₁ w5 (omega arith) (omega arith)
              (omega arith))
            (Runs-leave board ram_chips 3 6 27 29 (set r₁ 30 29) m' code (ends 29 (omega arith))
              (mode, refl) refl refl (omega arith))))

  -- The page of a scancode puts its character into x8.
  pub entry_gives :
      (page s : ℕ) (r : ℕ → ℕ)
      → HasWords board page 0 (entry_words s)
      → Moves board ram_chips m mode page r 28 (set (set r 8 (ascii_of s)) 30 28)
  entry_gives page s r (w0, code) =
      let m' = record m { flash_page = page } in
      let r₁ = set r 8 (ascii_of s) in
      let (padded, tail) =
        Runs-nops board ram_chips 7 1 page (switch_words 28) r₁ m' code (mode, refl)
          (omega arith) in
      Runs-step
        (step-load board ram_chips m mode page 0 7 (ascii_of s) r w0 (omega arith) (omega arith)
          (omega (arith, ascii_of-below s)))
        (Runs-trans padded (
          Runs-switch board ram_chips page 28 r₁ m' tail (ends 28 (omega arith)) (mode, refl)
            (omega arith)))

  -- EMIT_PAGE writes x8 to GPIO_OUT and clears the byte.
  pub emit_writes :
      (a : ℕ) (r : ℕ → ℕ)
      → HasWords board 28 0 emit_words
      → r 8 ≡ a
      → a < 128
      → Runs
          (chip_bus board ram_chips)
          (running 0xB4 r, record m { flash_page = 28 })
          (
            running 0xB4 (set (set r 4 0) 30 1),
            record m { flash_page = 1; gpio_out = a; written = a ∷ m.written },
          )
  unfolding perform write set_reg reg mask
  emit_writes a r (w0, (w1, code)) is small =
      let m' = record m { flash_page = 28 } in
      let m₂ = record m' { gpio_out = a; written = a ∷ m.written } in
      let low : r 8 % 2 ^ 8 ≡ a = omega (arith, is) in
      let first : step (chip_bus board ram_chips) (running 0xB4 r, m') ≡ (running 0xB8 r, m₂) =
        step-instr board ram_chips 28 0 (sw 8 0 (pos 0xF0)) r m' w0 (mode, refl) (omega arith)
          (omega arith, omega arith, (omega arith, omega arith))
        ∙ ap (λ (v : ℕ). (running 0xB8 r, record m' { gpio_out = v; written = v ∷ m.written }))
            low in
      let second : step (chip_bus board ram_chips) (running 0xB8 r, m₂)
          ≡ (running 0xBC (set r 4 0), m₂) =
        step-instr board ram_chips 28 1 (addi 4 0 (pos 0)) r m₂ w1 (mode, refl) (omega arith)
          (omega arith, omega arith, (omega arith, omega arith)) in
      let (padded, tail) =
        Runs-nops board ram_chips 6 2 28 (switch_words 1) (set r 4 0) m₂ code (mode, refl)
          (omega arith) in
      Runs-step first (
        Runs-step second (
          Runs-trans padded (
            Runs-switch board ram_chips 28 1 (set r 4 0) m₂ tail (ends 1 (omega arith)) (mode, refl)
              (omega arith))))
