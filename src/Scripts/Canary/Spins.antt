-- ===== src/Scripts/Canary/Spins.antt =====
-- The program of tools/build_flash_canary.py on the chip, started by the handoff stub.
use agil_a.Common.{ℕ, ◌≡◌, refl, sym, ap, subst, ◌∙◌, arith, true, false, List, [], ◌∷◌, ok}
use agil_a.Common.Int.{pos, mask}
use agil_a.Asm.Encode.{word, addi, sw, jal_word}
use agil_a.Asm.Bytes.Laws.{to_bytes}
use agil_a.Core.Exec.{Core, step, reg, set_reg}
use agil_a.Core.Meaning.{perform}
use agil_a.Core.Encoded.Formats.{exec_jal}
use agil_a.Core.Runs.{Runs, stop, running, set, Runs-step}
use agil_a.Chip.Memory.{Board, Psram, Chip, write, chip_bus}
use agil_a.Chip.Run.{HasWords, step-fetched, step-instr}
use agil_a.Chip.Image.{HasBytes, HasWords-bytes}
use agil_a.Scripts.Handoff.{handoff_stub}
use agil_a.Scripts.Handoff.Starts.{step-stub}
use agil_a.Scripts.Canary.{canary}

abbrev canary_words : List ℕ
canary_words =
    word (addi 0 0 (pos 0))
    ∷ word (addi 5 0 (pos 0x2A))
    ∷ word (sw 5 0 (pos 0xF0))
    ∷ jal_word 0 (pos 0)
    ∷ []

canary-words : canary ≡ ok (to_bytes canary_words)
unfolding canary word jal_word
canary-words = refl

module _ {D : Type 0} (board : Board) (ram_chips : Psram D) where
  canary-HasWords :
      (image : List ℕ)
      → canary ≡ ok image
      → HasBytes board.flash 0 image
      → HasWords board 0 0 canary_words
  unfolding word jal_word
  canary-HasWords image built flashed =
      let same : image ≡ to_bytes canary_words = (let e = sym built ∙ canary-words in cc) in
      HasWords-bytes board 0 0 canary_words refl (subst (HasBytes board.flash 0) same flashed)

  -- A chip is at 0xB4 with FLASH_MODE off and FLASH_PAGE at 0, its RAM holds the bytes of the handoff
  -- stub from 0xB4 on, and its flash holds the canary. It comes to a state whose GPIO_OUT is 0x2A, after
  -- one write to GPIO_OUT, and a step of that state changes nothing.
  pub canary-spins :
      (stub image : List ℕ) (r : ℕ → ℕ) (m : Chip D)
      → handoff_stub ≡ ok stub
      → canary ≡ ok image
      → HasBytes m.ram 4 stub
      → HasBytes board.flash 0 image
      → m.flash_mode ≡ false
      → m.flash_page ≡ 0
      → let end : Core × Chip D = (
        running 0xC0 (set r 5 0x2A),
        record m { flash_mode = true; flash_page = 0; gpio_out = 0x2A; written = 0x2A ∷ m.written },
      ) in
        Runs (chip_bus board ram_chips) (running 0xB4 r, m) end
        × (step (chip_bus board ram_chips) end ≡ end)
  unfolding perform write set_reg reg mask
  canary-spins stub image r m handed built loaded flashed off first =
      let (_, (loads, (writes, (spins, _)))) = canary-HasWords image built flashed in
      let m₁ = record m { flash_mode = true; flash_page = 0 } in
      let m₂ = record m₁ { gpio_out = 0x2A; written = 0x2A ∷ m.written } in
      let r₁ = set r 5 0x2A in
      let turned : step (chip_bus board ram_chips) (running 0xB4 r, m) ≡ (running 0xB8 r, m₁) =
        step-stub board ram_chips stub r m handed loaded off
        ∙ ap (λ (n : ℕ). (running 0xB8 r, record m { flash_mode = true; flash_page = n })) first in
      let second : step (chip_bus board ram_chips) (running 0xB8 r, m₁) ≡ (running 0xBC r₁, m₁) =
        step-instr board ram_chips 0 1 (addi 5 0 (pos 0x2A)) r m₁ loads (refl, refl) (omega arith)
          (omega arith, omega arith, (omega arith, omega arith)) in
      let third : step (chip_bus board ram_chips) (running 0xBC r₁, m₁) ≡ (running 0xC0 r₁, m₂) =
        step-instr board ram_chips 0 2 (sw 5 0 (pos 0xF0)) r₁ m₁ writes (refl, refl) (omega arith)
          (omega arith, omega arith, (omega arith, omega arith)) in
      let spin : step (chip_bus board ram_chips) (running 0xC0 r₁, m₂) ≡ (running 0xC0 r₁, m₂) =
        step-fetched board ram_chips 0 3 (jal_word 0 (pos 0)) r₁ m₂ spins (refl, refl) (omega arith)
        ∙ exec_jal (chip_bus board ram_chips) (running 0xC0 r₁) m₂ 0 (pos 0) (omega arith) refl in
      (Runs-step turned (Runs-step second (Runs-step third stop)), spin)
