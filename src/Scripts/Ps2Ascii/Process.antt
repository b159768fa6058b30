-- ===== src/Scripts/Ps2Ascii/Process.antt =====
-- The pages of tools/build_ps2_ascii.py that a byte goes through, on the chip.
use agil_a.Common.{ℕ, suc, ◌<◌, ◌≡◌, refl, arith, true, false, ◌==◌}
use agil_a.Common.Int.{pos, mask}
use agil_a.Core.Alu.{branch_cond}
use agil_a.Core.Exec.{reg}
use agil_a.Core.Runs.{set, Runs, running, Runs-step}
use agil_a.Chip.Memory.{Board, Psram, Chip, chip_bus}
use agil_a.Chip.Run.{step-load, HasWords, step-branch, step-jump, Runs-leave}
use agil_a.Scripts.Ps2Reader.Frame.{Bounces}
use agil_a.Scripts.Ps2Ascii.Pages.{bp_words, prefix_words, extcheck_words}

-- A program is on page `page`, with these registers, and comes to the first word of the next page.
module _ {D : Type 0} (board : Board) (ram_chips : Psram D) (m : Chip D)
    (mode : m.flash_mode ≡ true) where
  abbrev pub Moves : ℕ → (ℕ → ℕ) → ℕ → (ℕ → ℕ) → Type 0
  Moves page r page' r' =
      Runs (chip_bus board ram_chips) (running 0xB4 r, record m { flash_page = page })
        (running 0xB4 r', record m { flash_page = page' })

  module _ (ends : Bounces board 256) where
    -- PROCESS_BP: a pending break drops the byte with both flags, and no break goes on.
    pub bp_drops :
        (r : ℕ → ℕ)
        → HasWords board 23 0 bp_words
        → r 5 ≡ 1
        → Moves 23 r 1 (set (set (set (set r 5 0) 6 0) 4 0) 30 1)
    unfolding branch_cond reg mask
    bp_drops r (w0, (w1, (w2, (w3, (w4, (w5, (w6, code))))))) is =
        let m' = record m { flash_page = 23 } in
        let r₁ = set r 5 0 in
        let r₂ = set r₁ 6 0 in
        let r₃ = set r₂ 4 0 in
        let r₄ = set r₃ 30 1 in
        Runs-step
          (step-branch board ram_chips 23 0 0 5 0 (pos 24) false r m' w0 (mode, refl) (omega arith)
            (omega arith, omega arith, omega arith) refl (ground arith))
          (Runs-step
            (step-load board ram_chips m mode 23 1 4 0 r w1 (omega arith) (omega arith)
              (omega arith))
            (Runs-step
              (step-load board ram_chips m mode 23 2 5 0 r₁ w2 (omega arith) (omega arith)
                (omega arith))
              (Runs-step
                (step-load board ram_chips m mode 23 3 3 0 r₂ w3 (omega arith) (omega arith)
                  (omega arith))
                (Runs-step
                  (step-load board ram_chips m mode 23 4 29 1 r₃ w4 (omega arith) (omega arith)
                    (omega arith))
                  (Runs-step
                    (step-jump board ram_chips 23 5 (pos 8) r₄ m' w5 (mode, refl) (omega arith)
                      refl)
                    (Runs-leave board ram_chips 2 7 23 1 r₄ m' code (ends 1 (omega arith))
                      (mode, refl) refl refl (omega arith)))))))

    pub bp_passes :
        (r : ℕ → ℕ) → HasWords board 23 0 bp_words → r 5 ≡ 0 → Moves 23 r 24 (set r 30 24)
    unfolding branch_cond reg mask
    bp_passes r (w0, (w1, (w2, (w3, (w4, (w5, (w6, code))))))) is =
        let m' = record m { flash_page = 23 } in
        Runs-step
          (step-branch board ram_chips 23 0 0 5 0 (pos 24) true r m' w0 (mode, refl) (omega arith)
            (omega arith, omega arith, omega arith) refl (ground arith))
          (Runs-step
            (step-load board ram_chips m mode 23 6 29 24 r w6 (omega arith) (omega arith)
              (omega arith))
            (Runs-leave board ram_chips 2 7 23 24 (set r 30 24) m' code (ends 24 (omega arith))
              (mode, refl) refl refl (omega arith)))

    -- The pages of a prefix: the prefix sets its flag and ends the byte, another byte goes on.
    pub prefix_sets :
        (page prefix flag next : ℕ) (r : ℕ → ℕ)
        → HasWords board page 0 (prefix_words prefix (suc flag) next)
        → prefix < 2048
        → suc flag < 32
        → r 4 ≡ prefix
        → Moves page r 1 (set (set (set (set r 7 prefix) (suc flag) 1) 4 0) 30 1)
    unfolding branch_cond reg mask
    prefix_sets page prefix flag next r (w0, (w1, (w2, (w3, (w4, (w5, (w6, code))))))) small below
          is =
        let m' = record m { flash_page = page } in
        let r₁ = set r 7 prefix in
        let r₂ = set r₁ (suc flag) 1 in
        let r₃ = set r₂ 4 0 in
        let r₄ = set r₃ 30 1 in
        Runs-step
          (step-load board ram_chips m mode page 0 6 prefix r w0 (omega arith) (omega arith) small)
          (Runs-step
            (step-branch board ram_chips page 1 0 4 7 (pos 12) true r₁ m' w1 (mode, refl)
              (omega arith) (omega arith, omega arith, omega arith) refl (ground arith))
            (Runs-step
              (step-load board ram_chips m mode page 4 flag 1 r₁ w4 (omega arith) below
                (omega arith))
              (Runs-step
                (step-load board ram_chips m mode page 5 3 0 r₂ w5 (omega arith) (omega arith)
                  (omega arith))
                (Runs-step
                  (step-load board ram_chips m mode page 6 29 1 r₃ w6 (omega arith) (omega arith)
                    (omega arith))
                  (Runs-leave board ram_chips 2 7 page 1 r₄ m' code (ends 1 (omega arith))
                    (mode, refl) refl refl (omega arith))))))

    pub prefix_passes :
        (page prefix flag next : ℕ) (r : ℕ → ℕ)
        → HasWords board page 0 (prefix_words prefix flag next)
        → prefix < 2048
        → next < 256
        → (r 4 == prefix) ≡ false
        → Moves page r next (set (set r 7 prefix) 30 next)
    unfolding branch_cond reg mask
    prefix_passes page prefix flag next r (w0, (w1, (w2, (w3, (w4, (w5, (w6, code))))))) small below
          other =
        let m' = record m { flash_page = page } in
        let r₁ = set r 7 prefix in
        let r₂ = set r₁ 30 next in
        Runs-step
          (step-load board ram_chips m mode page 0 6 prefix r w0 (omega arith) (omega arith) small)
          (Runs-step
            (step-branch board ram_chips page 1 0 4 7 (pos 12) false r₁ m' w1 (mode, refl)
              (omega arith) (omega arith, omega arith, omega arith) refl other)
            (Runs-step
              (step-load board ram_chips m mode page 2 29 next r₁ w2 (omega arith) (omega arith)
                (omega arith))
              (Runs-step
                (step-jump board ram_chips page 3 (pos 16) r₂ m' w3 (mode, refl) (omega arith) refl)
                (Runs-leave board ram_chips 2 7 page next r₂ m' code (ends next below) (mode, refl)
                  refl refl below))))

    -- PROCESS_EXTCHECK: a pending extension drops the byte, and none goes on.
    pub extcheck_drops :
        (r : ℕ → ℕ)
        → HasWords board 26 0 extcheck_words
        → r 6 ≡ 1
        → Moves 26 r 1 (set (set (set r 6 0) 4 0) 30 1)
    unfolding branch_cond reg mask
    extcheck_drops r (w0, (w1, (w2, (w3, (w4, (w5, code)))))) is =
        let m' = record m { flash_page = 26 } in
        let r₁ = set r 6 0 in
        let r₂ = set r₁ 4 0 in
        let r₃ = set r₂ 30 1 in
        Runs-step
          (step-branch board ram_chips 26 0 0 6 0 (pos 20) false r m' w0 (mode, refl) (omega arith)
            (omega arith, omega arith, omega arith) refl (ground arith))
          (Runs-step
            (step-load board ram_chips m mode 26 1 5 0 r w1 (omega arith) (omega arith)
              (omega arith))
            (Runs-step
              (step-load board ram_chips m mode 26 2 3 0 r₁ w2 (omega arith) (omega arith)
                (omega arith))
              (Runs-step
                (step-load board ram_chips m mode 26 3 29 1 r₂ w3 (omega arith) (omega arith)
                  (omega arith))
                (Runs-step
                  (step-jump board ram_chips 26 4 (pos 8) r₃ m' w4 (mode, refl) (omega arith) refl)
                  (Runs-leave board ram_chips 3 6 26 1 r₃ m' code (ends 1 (omega arith))
                    (mode, refl) refl refl (omega arith))))))

    pub extcheck_passes :
        (r : ℕ → ℕ) → HasWords board 26 0 extcheck_words → r 6 ≡ 0 → Moves 26 r 27 (set r 30 27)
    unfolding branch_cond reg mask
    extcheck_passes r (w0, (w1, (w2, (w3, (w4, (w5, code)))))) is =
        let m' = record m { flash_page = 26 } in
        Runs-step
          (step-branch board ram_chips 26 0 0 6 0 (pos 20) true r m' w0 (mode, refl) (omega arith)
            (omega arith, omega arith, omega arith) refl (ground arith))
          (Runs-step
            (step-load board ram_chips m mode 26 5 29 27 r w5 (omega arith) (omega arith)
              (omega arith))
            (Runs-leave board ram_chips 3 6 26 27 (set r 30 27) m' code (ends 27 (omega arith))
              (mode, refl) refl refl (omega arith)))
