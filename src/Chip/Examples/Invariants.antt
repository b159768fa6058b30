-- ===== src/Chip/Examples/Invariants.antt =====
-- The protected RAM of the chip, over one instruction of an image.
use agil_a.Common.{ℕ, ◌<◌, ◌≡◌, refl, true}
use agil_a.Core.Exec.{Core, Bus, step}
use agil_a.Core.Runs.{stop, next, running}
use agil_a.Chip.Memory.{Chip, chip_bus}
use agil_a.Chip.Window.{Runs-IsLocked}
use agil_a.Chip.Examples.{keyboard, no_psram, loaded_chip}

abbrev bus : Bus (Chip Unit)
bus = chip_bus keyboard no_psram

-- The chip after the stub, at the second word of the image.
abbrev locked_chip : Chip Unit
locked_chip = record loaded_chip { flash_mode = true }

abbrev cleared : Core × Chip Unit
cleared = step bus (running 0xB8 (λ r. 7), locked_chip)

Runs-IsLocked_example :
    (cleared.1.flash_mode ≡ true) × ((i : ℕ) → 4 < i → cleared.1.ram i ≡ loaded_chip.ram i)
Runs-IsLocked_example =
    Runs-IsLocked keyboard no_psram locked_chip cleared.1 (running 0xB8 (λ r. 7)) cleared.0 refl
      (next stop)
