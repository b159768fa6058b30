-- ===== src/Chip/Examples/Landing.antt =====
-- Two pages of one flash, the first of which switches to the second.
use agil_a.Common.{ℕ, refl, arith, none, List, [], ◌∷◌, ◌++◌, replicate, true}
use agil_a.Common.Int.{pos}
use agil_a.Asm.Encode.{addi, word, jal_word}
use agil_a.Asm.Bytes.Laws.{to_bytes}
use agil_a.Core.Exec.{reg}
use agil_a.Core.Runs.{Runs, running, set}
use agil_a.Paged.Layout.{closing, nop}
use agil_a.Paged.Switch.{switch_to-words, switch_to_computed-words}
use agil_a.Paged.Examples.{lit, page_of, page_of-IsOpen, lit_returns, lit-AllBelow}
use agil_a.Paged.Layout.{finished}
use agil_a.Chip.Memory.{Board, Chip, chip_bus}
use agil_a.Chip.Image.{HasBytes-append}
use agil_a.Chip.Landing.{on_page, switch_to-lands, switch_to_computed-lands}
use agil_a.Chip.Examples.{memory, memory-HasBytes, no_psram, loaded_chip}

abbrev constant_page : List ℕ
constant_page =
    to_bytes
      ((lit ++ (replicate 5 nop ++ word (addi 30 0 (pos 1)) ∷ [])) ++ closing (page_of lit) 30)

abbrev computed_page : List ℕ
computed_page = to_bytes ((lit ++ replicate 6 nop) ++ closing (page_of lit) 30)

-- A flash of a page and its copy.
abbrev twice : List ℕ → Board
twice page = record { rom = λ i. 0; flash = memory (page ++ page); sample = λ t at. 0 }

abbrev on_flash : Chip Unit
on_flash = record loaded_chip { flash_mode = true }

switch_to-lands_example :
    Runs
      (chip_bus (twice constant_page) no_psram)
      (running 0xC0 (λ r. 7), on_flash)
      (running 0xB4 (set (λ r. 7) 30 1), on_page 1 on_flash)
unfolding word jal_word
switch_to-lands_example =
    switch_to-lands (twice constant_page) no_psram 0 (λ r. 7) on_flash (page_of lit) (finished lit)
      lit none constant_page (page_of-IsOpen lit) (refl, refl, refl) lit_returns lit-AllBelow
      (omega arith) (refl, refl)
      (HasBytes-append (twice constant_page) 0 constant_page constant_page
        (memory-HasBytes (constant_page ++ constant_page))).0
      (pos 1)
      (switch_to-words (page_of lit) (finished lit) lit none (page_of-IsOpen lit) lit_returns
        lit-AllBelow (omega arith) (pos 1) (omega arith))
      (omega arith, omega arith) (omega arith) (omega arith) refl

switch_to_computed-lands_example :
    Runs
      (chip_bus (twice computed_page) no_psram)
      (running 0xC0 (λ r. 1), on_flash)
      (running 0xB4 (λ r. 1), on_page 1 on_flash)
unfolding word jal_word reg
switch_to_computed-lands_example =
    switch_to_computed-lands (twice computed_page) no_psram 0 (λ r. 1) on_flash (page_of lit)
      (finished lit) lit none computed_page (page_of-IsOpen lit) (refl, refl, refl) lit_returns
      lit-AllBelow (omega arith) (refl, refl)
      (HasBytes-append (twice computed_page) 0 computed_page computed_page
        (memory-HasBytes (computed_page ++ computed_page))).0
      (switch_to_computed-words (page_of lit) (finished lit) lit none (page_of-IsOpen lit)
        lit_returns lit-AllBelow (omega arith) (omega arith))
      (omega arith) refl
