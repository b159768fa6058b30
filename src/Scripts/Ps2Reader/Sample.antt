-- ===== src/Scripts/Ps2Reader/Sample.antt =====
-- The sampling pages of tools/build_ps2_reader.py (`wait_clock_low_and_sample`), run on the chip.
use agil_a.Common.{
  ℕ, zero, suc, ◌+◌, ◌*◌, ◌/◌, ◌%◌, ◌^◌, ◌<◌, ◌≡◌, refl, ap, ◌∙◌, arith, Bool, List, ◌∷◌, ◌++◌,
  replicate, bit_and, bit_or, if◌then◌else◌, ◌==◌,
}
use agil_a.Common.Int.{pos, neg, mask}
use agil_a.Common.Bits.{bit_or_comm, bit_or_disjoint}
use agil_a.Asm.Encode.{word, lbu, andi, ori, branch_word}
use agil_a.Core.Alu.{branch_cond}
use agil_a.Core.Exec.{step, reg, set_reg}
use agil_a.Core.Meaning.{perform}
use agil_a.Core.Encoded.Formats.{exec_branch}
use agil_a.Core.Runs.{set, Runs, running, Runs-step, Runs-trans}
use agil_a.Paged.Layout.{nop, trampoline}
use agil_a.Chip.Memory.{Board, Psram, Chip, chip_bus, word_at}
use agil_a.Chip.Run.{HasWords, OnPage, step-fetched, step-instr, Runs-nops}
use agil_a.Scripts.Ps2Reader.Pins.{Edge, bit_and_pin4}
use agil_a.Scripts.Ps2Reader.Poll.{switch_words, Runs-loop, Runs-switch}

-- The words of a `wait_clock_low_and_sample` page.
abbrev pub sample_words : ℕ → ℕ → List ℕ
sample_words bit next =
    word (lbu 1 0 (pos 0xF4))
    ∷ word (andi 2 1 (pos 8))
    ∷ branch_word 1 2 0 (neg 8)
    ∷ word (andi 3 1 (pos 16))
    ∷ branch_word 0 3 0 (pos 8)
    ∷ word (ori 4 4 (pos bit))
    ∷ (replicate 2 nop ++ switch_words next)

module _ {D : Type 0} (board : Board) (ram_chips : Psram D) where
  -- The DATA bit of the sampled byte in x1 is joined to the scancode in x4: a clear bit jumps over the
  -- ORI, and a set one goes through it.
  step-test :
      (k b : ℕ) (r : ℕ → ℕ) (m : Chip D)
      → word_at board.flash (k * 44 + 12) ≡ word (andi 3 1 (pos 16))
      → OnPage k m
      → r 1 / 16 % 2 ≡ b
      → step (chip_bus board ram_chips) (running 0xC0 r, m) ≡ (running 0xC4 (set r 3 (b * 16)), m)
  unfolding perform set_reg reg mask
  step-test k b r m masks here is =
      let bit : bit_and (r 1) 16 ≡ b * 16 = omega (arith, bit_and_pin4 (r 1), is) in
      step-instr board ram_chips k 3 (andi 3 1 (pos 16)) r m masks here (omega arith)
        (omega arith, omega arith, (omega arith, omega arith))
      ∙ ap (λ (x : ℕ). (running 0xC4 (set r 3 x), m)) bit

  step-skip :
      (k b : ℕ) (r : ℕ → ℕ) (m : Chip D)
      → word_at board.flash (k * 44 + 16) ≡ branch_word 0 3 0 (pos 8)
      → OnPage k m
      → r 3 ≡ b * 16
      → step (chip_bus board ram_chips) (running 0xC4 r, m)
        ≡ (running (if b == 0 then 0xCC else 0xC8) r, m)
  unfolding reg mask branch_cond
  step-skip k b r m skips here is =
      let same : (r 3 == 0) ≡ (b == 0) = ground arith in
      step-fetched board ram_chips k 4 (branch_word 0 3 0 (pos 8)) r m skips here (omega arith)
      ∙ exec_branch (chip_bus board ram_chips) (running 0xC4 r) m 0 3 0 (pos 8) (omega arith)
          (omega arith) (omega arith) refl
      ∙ ap (λ (x : Bool). (running (if x then 0xCC else 0xC8) r, m)) same

  step-join :
      (k bit : ℕ) (r : ℕ → ℕ) (m : Chip D)
      → word_at board.flash (k * 44 + 20) ≡ word (ori 4 4 (pos bit))
      → OnPage k m
      → bit < 2048
      → step (chip_bus board ram_chips) (running 0xC8 r, m)
        ≡ (running 0xCC (set r 4 (bit_or (r 4) bit)), m)
  unfolding perform set_reg reg mask
  step-join k bit r m joins here small =
      let whole : bit % 2 ^ 32 ≡ bit = omega arith in
      step-instr board ram_chips k 5 (ori 4 4 (pos bit)) r m joins here (omega arith)
        (omega arith, omega arith, (omega arith, omega arith))
      ∙ ap (λ (x : ℕ). (running 0xCC (set r 4 (bit_or (r 4) x)), m)) whole

  -- A sampling page ends at the first poll that sees CLOCK low, on the page `next`, with DATA's bit
  -- added to the scancode at the place `i`.
  pub Runs-sampled :
      (b i k next t u : ℕ) (r : ℕ → ℕ) (m : Chip D)
      → HasWords board k 0 (sample_words (2 ^ i) next)
      → word_at board.flash (next * 44 + 40) ≡ trampoline 44
      → next < 256
      → OnPage k m
      → m.sampled ≡ t
      → Edge board 0 b t u
      → b < 2
      → r 4 < 2 ^ i
      → 2 ^ i < 2048
      → 2 ^ i % 2 ^ i ≡ 0
      → (r' : ℕ → ℕ) × Runs
          (chip_bus board ram_chips)
          (running 0xB4 r, m)
          (running 0xB4 r', record m { flash_page = next; sampled = u })
        × (r' 4 ≡ r 4 + b * 2 ^ i)
        × (r' 5 ≡ r 5)
        × (r' 6 ≡ r 6)
  Runs-sampled zero i k next t u r m (loads, (masks, (branches, (tests, (skips, (joins, code))))))
        bounces small here at edge two low bit whole =
      let m₁ = record m { sampled = u } in
      let (r₁, loop, (k4, k5, k6), is) =
        Runs-loop board ram_chips 0 0 k t u r m (loads, (masks, (branches, tt))) here (omega arith)
          at edge in
      let r₂ = set r₁ 3 (0 * 16) in
      let (padded, tail) =
        Runs-nops board ram_chips 2 6 k (switch_words next) r₂ m₁ code here (omega arith) in
      let switched = Runs-switch board ram_chips k next r₂ m₁ tail bounces here small in
      (
        set r₂ 30 next,
        Runs-trans loop (
            Runs-step (step-test k 0 r₁ m₁ tests here is)
              (Runs-step (step-skip k 0 r₂ m₁ skips here refl) (Runs-trans padded switched))),
        omega (arith, k4),
        k5,
        k6,
      )
  Runs-sampled (suc zero) i k next t u r m
        (loads, (masks, (branches, (tests, (skips, (joins, code)))))) bounces small here at edge two
        low bit whole =
      let m₁ = record m { sampled = u } in
      let (r₁, loop, (k4, k5, k6), is) =
        Runs-loop board ram_chips 0 1 k t u r m (loads, (masks, (branches, tt))) here (omega arith)
          at edge in
      let r₂ = set r₁ 3 (1 * 16) in
      let r₃ = set r₂ 4 (bit_or (r₂ 4) (2 ^ i)) in
      let joined : bit_or (r₁ 4) (2 ^ i) ≡ r 4 + 1 * 2 ^ i =
        ap (λ (x : ℕ). bit_or x (2 ^ i)) k4
        ∙ bit_or_comm (r 4) (2 ^ i)
        ∙ bit_or_disjoint i (2 ^ i) (r 4) whole low
        ∙ omega arith in
      let (padded, tail) =
        Runs-nops board ram_chips 2 6 k (switch_words next) r₃ m₁ code here (omega arith) in
      let switched = Runs-switch board ram_chips k next r₃ m₁ tail bounces here small in
      (
        set r₃ 30 next,
        Runs-trans loop (
            Runs-step (step-test k 1 r₁ m₁ tests here is) (
              Runs-step (step-skip k 1 r₂ m₁ skips here refl) (
                Runs-step (step-join k (2 ^ i) r₂ m₁ joins here bit)
                  (Runs-trans padded switched)))),
        joined,
        k5,
        k6,
      )
  Runs-sampled (suc (suc b)) i k next t u r m code bounces small here at edge two low bit whole =
      absurd (omega arith)
