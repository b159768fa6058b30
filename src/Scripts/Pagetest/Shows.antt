-- ===== src/Scripts/Pagetest/Shows.antt =====
-- The image of tools/build_flash_pagetest.py on the chip, started by the handoff stub: five values on
-- GPIO_OUT, from four pages of which one runs twice.
use mathlib.Core.List.{flatten}
use agil_a.Common.{
  ℕ, suc, ◌+◌, ◌*◌, ◌%◌, ◌^◌, ◌<◌, ◌≡◌, refl, sym, ap, subst, ◌∙◌, arith, true, false, List, [],
  ◌∷◌, ◌++◌, map, ok, replicate,
}
use agil_a.Common.Int.{pos, mask}
use agil_a.Asm.Encode.{word, addi, sw, branch_word, jal_word}
use agil_a.Asm.Bytes.Laws.{to_bytes}
use agil_a.Core.Alu.{branch_cond}
use agil_a.Core.Exec.{Core, step, reg, set_reg}
use agil_a.Core.Meaning.{perform}
use agil_a.Core.Runs.{set, Runs, stop, running, Runs-step, Runs-trans}
use agil_a.Paged.Layout.{nop, trampoline}
use agil_a.Chip.Memory.{Board, Psram, Chip, write, chip_bus, word_at}
use agil_a.Chip.Run.{
  HasWords, close_words, step-load, step-instr, step-branch, step-jump, Runs-nops, Runs-leave,
}
use agil_a.Chip.Image.{HasBytes, HasPages-bytes, are_pages, bounces}
use agil_a.Scripts.Handoff.{handoff_stub}
use agil_a.Scripts.Handoff.Starts.{step-stub}
use agil_a.Scripts.Ps2Reader.Poll.{switch_words, Runs-switch}
use agil_a.Scripts.Pagetest.{pagetest}

-- Two words that show a value, and the pages.
abbrev pub show_words : ℕ → List ℕ → List ℕ
show_words v ws = word (addi 2 0 (pos v)) ∷ word (sw 2 0 (pos 0xF0)) ∷ ws

abbrev pub loop_words : List ℕ
loop_words =
    branch_word 1 5 0 (pos 16)
    ∷ word (addi 5 0 (pos 1))
    ∷ word (addi 30 0 (pos 1))
    ∷ jal_word 0 (pos 8)
    ∷ word (addi 30 0 (pos 2))
    ∷ (replicate 2 nop ++ close_words)

abbrev pub pagetest_words : List (List ℕ)
pagetest_words =
    (nop ∷ word (addi 5 0 (pos 0)) ∷ show_words 0x11 (replicate 4 nop ++ switch_words 1))
    ∷ show_words 0x22 loop_words
    ∷ show_words 0x33 (replicate 6 nop ++ switch_words 3)
    ∷ show_words 0x44 (jal_word 0 (pos 0) ∷ (replicate 5 nop ++ switch_words 3))
    ∷ []

pub pagetest-words : pagetest ≡ ok (flatten (map to_bytes pagetest_words))
unfolding pagetest word jal_word branch_word flatten
pagetest-words = refl

pages_fit : are_pages pagetest_words ≡ true
unfolding word jal_word branch_word
pages_fit = refl

-- A chip that has shown a value.
abbrev says : {D : Type 0} → ℕ → Chip D → Chip D
says v m = record m { gpio_out = v; written = v ∷ m.written }

module _ {D : Type 0} (board : Board) (ram_chips : Psram D) where
  Runs-show :
      (page i v : ℕ) (ws : List ℕ) (r : ℕ → ℕ) (m : Chip D)
      → HasWords board page i (show_words v ws)
      → m.flash_mode ≡ true
      → i < 9
      → v < 256
      → Runs
          (chip_bus board ram_chips)
          (running (0xB4 + i * 4) r, record m { flash_page = page })
          (running (0xB4 + suc (suc i) * 4) (set r 2 v), record (says v m) { flash_page = page })
  unfolding perform write set_reg reg mask
  Runs-show page i v ws r m (loads, (writes, _)) mode low small =
      let m₁ = record m { flash_page = page } in
      let on : (0xB4 + i * 4 + 4) % 256 ≡ 0xB4 + suc i * 4 = omega arith in
      let on' : (0xB4 + suc i * 4 + 4) % 256 ≡ 0xB4 + suc (suc i) * 4 = omega arith in
      let byte : v % 2 ^ 8 ≡ v = omega arith in
      let first : step (chip_bus board ram_chips) (running (0xB4 + i * 4) r, m₁)
          ≡ (running (0xB4 + suc i * 4) (set r 2 v), m₁) =
        step-load board ram_chips m mode page i 1 v r loads (omega arith) (omega arith)
          (omega arith)
        ∙ ap (λ (p : ℕ). (running p (set r 2 v), m₁)) on in
      let second : step (chip_bus board ram_chips) (running (0xB4 + suc i * 4) (set r 2 v), m₁)
          ≡ (running (0xB4 + suc (suc i) * 4) (set r 2 v), says v m₁) =
        step-instr board ram_chips page (suc i) (sw 2 0 (pos 0xF0)) (set r 2 v) m₁ writes
          (mode, refl) (omega arith) (omega arith, omega arith, (omega arith, omega arith))
        ∙ ap (λ (x : ℕ). (running ((0xB4 + suc i * 4 + 4) % 256) (set r 2 v), says x m₁)) byte
        ∙ ap (λ (p : ℕ). (running p (set r 2 v), says v m₁)) on' in
      Runs-step first (Runs-step second stop)

  module _ (ends : (n : ℕ) → n < 4 → word_at board.flash (n * 44 + 40) ≡ trampoline 44) where
    -- Page 1, once to itself and once on.
    Runs-loop :
        (r : ℕ → ℕ) (m : Chip D)
        → HasWords board 1 0 (show_words 0x22 loop_words)
        → m.flash_mode ≡ true
        → r 5 ≡ 0
        → Runs
            (chip_bus board ram_chips)
            (running 0xB4 r, record m { flash_page = 1 })
            (
              running 0xB4 (set (set (set r 2 0x22) 5 1) 30 1),
              record (says 0x22 m) { flash_page = 1 },
            )
    unfolding branch_cond reg mask
    Runs-loop r m (loads, (writes, (w2, (w3, (w4, (w5, (w6, code))))))) mode zeroed =
        let m₁ = record (says 0x22 m) { flash_page = 1 } in
        let r₁ = set r 2 0x22 in
        let r₂ = set r₁ 5 1 in
        let r₃ = set r₂ 30 1 in
        Runs-trans
          (Runs-show 1 0 0x22 [] r m (loads, (writes, tt)) mode (omega arith) (omega arith))
          (Runs-step
            (step-branch board ram_chips 1 2 1 5 0 (pos 16) false r₁ m₁ w2 (mode, refl)
              (omega arith) (omega arith, omega arith, omega arith) refl (ground arith))
            (Runs-step
              (step-load board ram_chips m₁ mode 1 3 4 1 r₁ w3 (omega arith) (omega arith)
                (omega arith))
              (Runs-step
                (step-load board ram_chips m₁ mode 1 4 29 1 r₂ w4 (omega arith) (omega arith)
                  (omega arith))
                (Runs-step
                  (step-jump board ram_chips 1 5 (pos 8) r₃ m₁ w5 (mode, refl) (omega arith) refl)
                  (Runs-leave board ram_chips 2 7 1 1 r₃ m₁ code (ends 1 (omega arith)) (mode, refl)
                    refl refl (omega arith))))))

    Runs-on :
        (r : ℕ → ℕ) (m : Chip D)
        → HasWords board 1 0 (show_words 0x22 loop_words)
        → m.flash_mode ≡ true
        → r 5 ≡ 1
        → Runs
            (chip_bus board ram_chips)
            (running 0xB4 r, record m { flash_page = 1 })
            (running 0xB4 (set (set r 2 0x22) 30 2), record (says 0x22 m) { flash_page = 2 })
    unfolding branch_cond reg mask
    Runs-on r m (loads, (writes, (w2, (w3, (w4, (w5, (w6, code))))))) mode one =
        let m₁ = record (says 0x22 m) { flash_page = 1 } in
        let r₁ = set r 2 0x22 in
        let r₂ = set r₁ 30 2 in
        Runs-trans
          (Runs-show 1 0 0x22 [] r m (loads, (writes, tt)) mode (omega arith) (omega arith))
          (Runs-step
            (step-branch board ram_chips 1 2 1 5 0 (pos 16) true r₁ m₁ w2 (mode, refl) (omega arith)
              (omega arith, omega arith, omega arith) refl (ground arith))
            (Runs-step
              (step-load board ram_chips m₁ mode 1 6 29 2 r₁ w6 (omega arith) (omega arith)
                (omega arith))
              (Runs-leave board ram_chips 2 7 1 2 r₂ m₁ code (ends 2 (omega arith)) (mode, refl)
                refl refl (omega arith))))

  -- A chip is at 0xB4 with FLASH_MODE off and FLASH_PAGE at 0, its RAM holds the bytes of the handoff
  -- stub from 0xB4 on, and its flash holds the image that pagetest builds. It comes to page 3 with the
  -- values 0x11, 0x22, 0x22, 0x33 and 0x44 written to GPIO_OUT, in this order and with no other write to
  -- it, FLASH_MODE on and the rest of the memory map as it was; and a step of that state changes nothing.
  pub pagetest-shows :
      (stub image : List ℕ) (r : ℕ → ℕ) (m : Chip D)
      → handoff_stub ≡ ok stub
      → pagetest ≡ ok image
      → HasBytes m.ram 4 stub
      → HasBytes board.flash 0 image
      → m.flash_mode ≡ false
      → m.flash_page ≡ 0
      → (r' : ℕ → ℕ) × (let end : Core × Chip D = (
        running 0xBC r',
        record m {
          flash_mode = true;
          flash_page = 3;
          gpio_out = 0x44;
          written = 0x44 ∷ 0x33 ∷ 0x22 ∷ 0x22 ∷ 0x11 ∷ m.written;
        },
      ) in
          Runs (chip_bus board ram_chips) (running 0xB4 r, m) end
          × (step (chip_bus board ram_chips) end ≡ end))
  unfolding mask
  pagetest-shows stub image r m handed built loaded flashed off first =
      let same : image ≡ flatten (map to_bytes pagetest_words) =
        (let e = sym built ∙ pagetest-words in cc) in
      let pages =
        HasPages-bytes board 0 pagetest_words pages_fit
          (subst (HasBytes board.flash 0) same flashed) in
      let ends = λ (n : ℕ) (h : n < 4).
        ap (λ x. word_at board.flash (x * 44 + 40)) (omega arith)
        ∙ bounces board 0 n pagetest_words pages_fit pages h in
      let ((_, (clears, page0)), (page1, (page2, ((l3, (s3, (spins, _))), _)))) = pages in
      let m₁ = record m { flash_mode = true } in
      let m₂ = says 0x11 m₁ in
      let m₃ = says 0x22 (says 0x22 m₂) in
      let m₄ = says 0x33 m₃ in
      let r₁ = set r 5 0 in
      let r₂ = set r₁ 2 0x11 in
      let r₃ = set (set (set (set r₂ 30 1) 2 0x22) 5 1) 30 1 in
      let r₄ = set (set r₃ 2 0x22) 30 2 in
      let r₅ = set r₄ 2 0x33 in
      let r₆ = set r₅ 30 3 in
      let turned =
        subst
          (λ n.
            step (chip_bus board ram_chips) (running 0xB4 r, m)
            ≡ (running 0xB8 r, record m₁ { flash_page = n }))
          first (step-stub board ram_chips stub r m handed loaded off) in
      let (pad0, tail0) =
        Runs-nops board ram_chips 4 4 0 (switch_words 1) r₂ (record m₂ { flash_page = 0 }) page0.1.1
          (refl, refl) (omega arith) in
      let (pad2, tail2) =
        Runs-nops board ram_chips 6 2 2 (switch_words 3) r₅ (record m₄ { flash_page = 2 }) page2.1.1
          (refl, refl) (omega arith) in
      let run0 : Runs (chip_bus board ram_chips) (running 0xB4 r, m)
          (running 0xB4 (set r₂ 30 1), record m₂ { flash_page = 1 }) =
        Runs-step turned (
          Runs-step
            (step-load board ram_chips m₁ refl 0 1 4 0 r clears (omega arith) (omega arith)
              (omega arith))
            (Runs-trans
              (Runs-show 0 2 0x11 (replicate 4 nop ++ switch_words 1) r₁ m₁ page0 refl (omega arith)
                (omega arith))
              (Runs-trans pad0 (
                Runs-switch board ram_chips 0 1 r₂ (record m₂ { flash_page = 0 }) tail0
                  (ends 1 (omega arith)) (refl, refl) (omega arith))))) in
      let run2 : Runs (chip_bus board ram_chips) (running 0xB4 r₄, record m₃ { flash_page = 2 })
          (running 0xB4 r₆, record m₄ { flash_page = 3 }) =
        Runs-trans
          (Runs-show 2 0 0x33 (replicate 6 nop ++ switch_words 3) r₄ m₃ page2 refl (omega arith)
            (omega arith))
          (Runs-trans pad2 (
            Runs-switch board ram_chips 2 3 r₅ (record m₄ { flash_page = 2 }) tail2
              (ends 3 (omega arith)) (refl, refl) (omega arith))) in
      (
        set r₆ 2 0x44,
        (
          Runs-trans run0 (
              Runs-trans (Runs-loop ends (set r₂ 30 1) m₂ page1 refl refl) (
                Runs-trans (Runs-on ends r₃ (says 0x22 m₂) page1 refl refl) (
                  Runs-trans run2 (
                    Runs-show 3 0 0x44 [] r₆ m₄ (l3, (s3, tt)) refl (omega arith) (omega arith))))),
          step-jump board ram_chips 3 2 (pos 0) (set r₆ 2 0x44)
              (record (says 0x44 m₄) { flash_page = 3 }) spins (refl, refl) (omega arith) refl,
        ),
      )
