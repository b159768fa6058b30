-- ===== src/Chip/Examples/Canary.antt =====
-- The canary's image in the flash of the chip.
use agil_a.Common.{ℕ, ◌≡◌, refl, true, List, [], ◌∷◌, ok}
use agil_a.Core.Exec.{Core, step}
use agil_a.Core.Runs.{Runs, running, set}
use agil_a.Chip.Memory.{Board, Chip, chip_bus}
use agil_a.Chip.Examples.{memory, memory-HasBytes, no_psram, loaded_chip, stub_built}
use agil_a.Scripts.Canary.{canary}
use agil_a.Scripts.Canary.Spins.{canary-spins}

abbrev canary_bytes : List ℕ
canary_bytes =
    0x13 ∷ 0x00 ∷ 0x00 ∷ 0x00 ∷ 0x93 ∷ 0x02 ∷ 0xa0 ∷ 0x02 ∷ 0x23 ∷ 0x28 ∷ 0x50 ∷ 0x0e ∷ 0x6f ∷ 0x00
    ∷ 0x00 ∷ 0x00 ∷ []

canary_built : canary ≡ ok canary_bytes
unfolding canary
canary_built = refl

abbrev caged : Board
caged = record { rom = λ i. 0; flash = memory canary_bytes; sample = λ t at. 0 }

abbrev spinning : Core × Chip Unit
spinning = (
  running 0xC0 (set (λ r. 7) 5 0x2A),
  record loaded_chip { flash_mode = true; flash_page = 0; gpio_out = 0x2A; written = 0x2A ∷ [] },
)

canary-spins_example :
    Runs (chip_bus caged no_psram) (running 0xB4 (λ r. 7), loaded_chip) spinning
    × (step (chip_bus caged no_psram) spinning ≡ spinning)
canary-spins_example =
    canary-spins caged no_psram (0x23 ∷ 0x2c ∷ 0x00 ∷ 0x0e ∷ []) canary_bytes (λ r. 7) loaded_chip
      stub_built canary_built (refl, (refl, (refl, (refl, tt)))) (memory-HasBytes canary_bytes) refl
      refl
