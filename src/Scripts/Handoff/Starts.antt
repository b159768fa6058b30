-- ===== src/Scripts/Handoff/Starts.antt =====
-- The stub of tools/build_flash_handoff_stub.py on the chip, in the RAM where the boot ROM loads it.
use agil_a.Common.{ℕ, ◌+◌, ◌*◌, ◌≡◌, refl, ap, subst, ◌∙◌, arith, true, false, List, [], ◌∷◌, ok}
use agil_a.Common.Int.{pos, mask}
use agil_a.Asm.Encode.{word, sw}
use agil_a.Core.Exec.{exec, step, reg}
use agil_a.Core.Meaning.{perform}
use agil_a.Core.Encoded.Instrs.{exec-word}
use agil_a.Core.Runs.{running}
use agil_a.Chip.Memory.{Board, Psram, Chip, read, write, chip_bus, word_at}
use agil_a.Chip.Run.{step-fetched}
use agil_a.Chip.Image.{HasBytes}
use agil_a.Scripts.Handoff.{handoff_stub}

stub_bytes : (stub : List ℕ) → handoff_stub ≡ ok stub → stub ≡ 0x23 ∷ 0x2c ∷ 0x00 ∷ 0x0e ∷ []
unfolding handoff_stub
stub_bytes stub e = cc

module _ {D : Type 0} (board : Board) (ram_chips : Psram D) where
  read-loaded :
      (m : Chip D) → m.flash_mode ≡ false → read board ram_chips m 0xB4 2 ≡ (word_at m.ram 4, m)
  unfolding read
  read-loaded m off = ground arith

  step-read :
      (w : ℕ) (r : ℕ → ℕ) (m : Chip D)
      → read board ram_chips m 0xB4 2 ≡ (w, m)
      → step (chip_bus board ram_chips) (running 0xB4 r, m)
        ≡ exec (chip_bus board ram_chips) w (running 0xB4 r) m
  unfolding step
  step-read w r m e = rw e

  -- The stub's only instruction turns FLASH_MODE on.
  pub step-stub :
      (stub : List ℕ) (r : ℕ → ℕ) (m : Chip D)
      → handoff_stub ≡ ok stub
      → HasBytes m.ram 4 stub
      → m.flash_mode ≡ false
      → step (chip_bus board ram_chips) (running 0xB4 r, m)
        ≡ (running 0xB8 r, record m { flash_mode = true })
  unfolding perform write word reg mask
  step-stub stub r m built loaded off =
      let (e₀, (e₁, (e₂, (e₃, _)))) = subst (HasBytes m.ram 4) (stub_bytes stub built) loaded in
      let fetched : word_at m.ram 4 ≡ word (sw 0 0 (pos 0xF8)) = omega (arith, e₀, e₁, e₂, e₃) in
      step-read (word (sw 0 0 (pos 0xF8))) r m (read-loaded m off ∙ ap (λ (w : ℕ). (w, m)) fetched)
      ∙ exec-word (chip_bus board ram_chips) (sw 0 0 (pos 0xF8)) (running 0xB4 r) m
          (omega arith, omega arith, (omega arith, omega arith))

  -- With the bytes of the stub in RAM from 0xB4 on and FLASH_MODE off, a core at 0xB4 has FLASH_MODE
  -- turned on by its first instruction, and its second instruction is the second word of the flash's
  -- current page, with the registers as before.
  pub handoff_stub-continues :
      (stub : List ℕ) (r : ℕ → ℕ) (m : Chip D)
      → handoff_stub ≡ ok stub
      → HasBytes m.ram 4 stub
      → m.flash_mode ≡ false
      → step (chip_bus board ram_chips) (step (chip_bus board ram_chips) (running 0xB4 r, m))
        ≡ exec
            (chip_bus board ram_chips)
            (word_at board.flash (m.flash_page * 44 + 4))
            (running 0xB8 r)
            (record m { flash_mode = true })
  handoff_stub-continues stub r m built loaded off =
      ap (step (chip_bus board ram_chips)) (step-stub stub r m built loaded off)
      ∙ step-fetched board ram_chips m.flash_page 1 (word_at board.flash (m.flash_page * 44 + 4)) r
          (record m { flash_mode = true }) refl (refl, refl) (omega arith)
