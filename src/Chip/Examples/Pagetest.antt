-- ===== src/Chip/Examples/Pagetest.antt =====
-- The page test's image in the flash of the chip.
use mathlib.Core.List.{flatten}
use agil_a.Common.{ℕ, ◌≡◌, refl, true, [], ◌∷◌, map}
use agil_a.Asm.Bytes.Laws.{to_bytes}
use agil_a.Core.Exec.{Core, step}
use agil_a.Core.Runs.{Runs, running}
use agil_a.Chip.Memory.{Board, Chip, chip_bus}
use agil_a.Chip.Examples.{memory, memory-HasBytes, no_psram, loaded_chip, stub_built}
use agil_a.Scripts.Pagetest.Shows.{pagetest_words, pagetest-words, pagetest-shows}

abbrev tested : Board
tested = record {
  rom = λ i. 0;
  flash = memory (flatten (map to_bytes pagetest_words));
  sample = λ t at. 0;
}

abbrev parked_at : (ℕ → ℕ) → Core × Chip Unit
parked_at r = (
  running 0xBC r,
  record loaded_chip {
    flash_mode = true;
    flash_page = 3;
    gpio_out = 0x44;
    written = 0x44 ∷ 0x33 ∷ 0x22 ∷ 0x22 ∷ 0x11 ∷ [];
  },
)

pagetest-shows_example :
    (r' : ℕ → ℕ) × (Runs
        (chip_bus tested no_psram)
        (running 0xB4 (λ r. 7), loaded_chip)
        (parked_at r')
      × (step (chip_bus tested no_psram) (parked_at r') ≡ parked_at r'))
pagetest-shows_example =
    pagetest-shows tested no_psram (0x23 ∷ 0x2c ∷ 0x00 ∷ 0x0e ∷ [])
      (flatten (map to_bytes pagetest_words)) (λ r. 7) loaded_chip stub_built pagetest-words
      (refl, (refl, (refl, (refl, tt)))) (memory-HasBytes (flatten (map to_bytes pagetest_words)))
      refl refl
