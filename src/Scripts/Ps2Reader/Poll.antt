-- ===== src/Scripts/Ps2Reader/Poll.antt =====
-- The polling pages of tools/build_ps2_reader.py (`wait_clock`), run on the chip.
use agil_a.Common.{
  ℕ, suc, ◌+◌, ◌-◌, ◌*◌, ◌/◌, ◌%◌, ◌^◌, ◌<◌, ◌≡◌, refl, ap, ◌∙◌, arith, true, false, List, [], ◌∷◌,
  ◌++◌, replicate, bit_and, if◌then◌else◌, ◌==◌,
}
use agil_a.Common.Int.{pos, neg, mask}
use agil_a.Asm.Encode.{word, lbu, andi, addi, sw, branch_word}
use agil_a.Core.Alu.{branch_cond}
use agil_a.Core.Exec.{Core, step, reg, set_reg}
use agil_a.Core.Meaning.{perform}
use agil_a.Core.Encoded.Formats.{exec_branch}
use agil_a.Core.Runs.{set, Runs, stop, running, Runs-step, Runs-trans}
use agil_a.Paged.Layout.{nop, trampoline}
use agil_a.Chip.Memory.{Board, Psram, Chip, read, chip_bus, word_at}
use agil_a.Chip.Run.{HasWords, OnPage, step-fetched, step-instr, Runs-nops, Runs-close}
use agil_a.Scripts.Ps2Reader.Pins.{clock, data_pin, Edge, seen, waits, bit_and_pin3}

-- The words that every page ends with that `switch_to(next)` finishes.
abbrev pub switch_words : ℕ → List ℕ
switch_words next = word (addi 30 0 (pos next)) ∷ word (sw 30 0 (pos 0xFC)) ∷ trampoline 44 ∷ []

-- The branch of a polling page, by the level that the page waits for.
abbrev pub back_if_not : ℕ → ℕ
back_if_not level = if level == 0 then 1 else 0

-- The words of a `wait_clock` page.
abbrev pub poll_words : ℕ → ℕ → List ℕ
poll_words level next =
    word (lbu 1 0 (pos 0xF4))
    ∷ word (andi 2 1 (pos 8))
    ∷ branch_word (back_if_not level) 2 0 (neg 8)
    ∷ (replicate 5 nop ++ switch_words next)

-- The registers that hold the scancode and the flags of a program keep their values.
abbrev pub Keeps : (ℕ → ℕ) → (ℕ → ℕ) → Type 0
Keeps r r' = (r' 4 ≡ r 4) × (r' 5 ≡ r 5) × (r' 6 ≡ r 6)

branch_cond-back_if_not :
    (level x : ℕ)
    → level < 2
    → (x ≡ (1 - level) * 8 → branch_cond (back_if_not level) x 0 ≡ true)
      × (x ≡ level * 8 → branch_cond (back_if_not level) x 0 ≡ false)
unfolding branch_cond
branch_cond-back_if_not level x two = (λ h. ground arith, λ h. ground arith)

module _ {D : Type 0} (board : Board) (ram_chips : Psram D) where
  -- A page number is loaded, and the page closes.
  pub Runs-switch :
      (k next : ℕ) (r : ℕ → ℕ) (m : Chip D)
      → HasWords board k 8 (switch_words next)
      → word_at board.flash (next * 44 + 40) ≡ trampoline 44
      → OnPage k m
      → next < 256
      → Runs
          (chip_bus board ram_chips)
          (running 0xD4 r, m)
          (running 0xB4 (set r 30 next), record m { flash_page = next })
  unfolding perform set_reg reg mask
  Runs-switch k next r m (loads, (writes, rest)) bounces here small =
      let first : step (chip_bus board ram_chips) (running 0xD4 r, m)
          ≡ (running 0xD8 (set r 30 next), m) =
        step-instr board ram_chips k 8 (addi 30 0 (pos next)) r m loads here (omega arith)
          (omega arith, omega arith, (omega arith, omega arith))
        ∙ ap (λ (v : ℕ). (running 0xD8 (set r 30 v), m)) (omega arith) in
      Runs-step first
        (Runs-close board ram_chips k next (set r 30 next) m writes bounces here refl small)

  read-gpio_in :
      (m : Chip D)
      → read board ram_chips m 0xF4 0
        ≡ (board.sample m.sampled 0xF4 % 2 ^ 8, record m { sampled = suc m.sampled })
  unfolding read
  read-gpio_in m = ground arith

  -- One poll: GPIO_IN into x1, and CLOCK's bit into x2.
  pub Runs-sample :
      (k : ℕ) (r : ℕ → ℕ) (m : Chip D) (s : Core × Chip D)
      → word_at board.flash (k * 44 + 0) ≡ word (lbu 1 0 (pos 0xF4))
      → word_at board.flash (k * 44 + 4) ≡ word (andi 2 1 (pos 8))
      → OnPage k m
      → let v = board.sample m.sampled 0xF4 % 2 ^ 8 in
        Runs
          (chip_bus board ram_chips)
          (
            running 0xBC (set (set r 1 v) 2 (clock board m.sampled * 8)),
            record m { sampled = suc m.sampled },
          )
          s
        → Runs (chip_bus board ram_chips) (running 0xB4 r, m) s
  unfolding perform set_reg reg mask
  Runs-sample k r m s loads masks here later =
      let v : ℕ = board.sample m.sampled 0xF4 % 2 ^ 8 in
      let m' = record m { sampled = suc m.sampled } in
      let small : v % 2 ^ 8 ≡ v = omega arith in
      let first : step (chip_bus board ram_chips) (running 0xB4 r, m)
          ≡ (running 0xB8 (set r 1 v), m') =
        step-instr board ram_chips k 0 (lbu 1 0 (pos 0xF4)) r m loads here (omega arith)
          (omega arith, omega arith, (omega arith, omega arith))
        ∙ ap (λ (p : ℕ × Chip D). (running 0xB8 (set r 1 (p.0 % 2 ^ 8)), p.1)) (read-gpio_in m)
        ∙ ap (λ (x : ℕ). (running 0xB8 (set r 1 x), m')) small in
      let level : bit_and v 8 ≡ clock board m.sampled * 8 = omega (arith, bit_and_pin3 v) in
      let second : step (chip_bus board ram_chips) (running 0xB8 (set r 1 v), m')
          ≡ (running 0xBC (set (set r 1 v) 2 (clock board m.sampled * 8)), m') =
        step-instr board ram_chips k 1 (andi 2 1 (pos 8)) (set r 1 v) m' masks here (omega arith)
          (omega arith, omega arith, (omega arith, omega arith))
        ∙ ap (λ (x : ℕ). (running 0xBC (set (set r 1 v) 2 x), m')) level in
      Runs-step first (Runs-step second later)

  -- A poll whose CLOCK is at the other level goes back to the first word; one at the level goes on.
  step-again :
      (level k : ℕ) (r : ℕ → ℕ) (m : Chip D)
      → word_at board.flash (k * 44 + 8) ≡ branch_word (back_if_not level) 2 0 (neg 8)
      → OnPage k m
      → level < 2
      → r 2 ≡ (1 - level) * 8
      → step (chip_bus board ram_chips) (running 0xBC r, m) ≡ (running 0xB4 r, m)
  unfolding reg mask
  step-again level k r m branches here two is =
      let taken = (branch_cond-back_if_not level (r 2) two).0 is in
      step-fetched board ram_chips k 2 (branch_word (back_if_not level) 2 0 (neg 8)) r m branches
        here (omega arith)
      ∙ exec_branch (chip_bus board ram_chips) (running 0xBC r) m (back_if_not level) 2 0 (neg 8)
          (omega arith) (omega arith) (ground arith) refl
      ∙ rw taken

  step-on :
      (level k : ℕ) (r : ℕ → ℕ) (m : Chip D)
      → word_at board.flash (k * 44 + 8) ≡ branch_word (back_if_not level) 2 0 (neg 8)
      → OnPage k m
      → level < 2
      → r 2 ≡ level * 8
      → step (chip_bus board ram_chips) (running 0xBC r, m) ≡ (running 0xC0 r, m)
  unfolding reg mask
  step-on level k r m branches here two is =
      let falls = (branch_cond-back_if_not level (r 2) two).1 is in
      step-fetched board ram_chips k 2 (branch_word (back_if_not level) 2 0 (neg 8)) r m branches
        here (omega arith)
      ∙ exec_branch (chip_bus board ram_chips) (running 0xBC r) m (back_if_not level) 2 0 (neg 8)
          (omega arith) (omega arith) (ground arith) refl
      ∙ rw falls

  -- The loop: it ends at the poll that sees the level, with the sampled byte in x1.
  pub Runs-loop :
      (level b k t u : ℕ) (r : ℕ → ℕ) (m : Chip D)
      → HasWords board k 0 (
          word (lbu 1 0 (pos 0xF4))
          ∷ word (andi 2 1 (pos 8))
          ∷ branch_word (back_if_not level) 2 0 (neg 8)
          ∷ [])
      → OnPage k m
      → level < 2
      → m.sampled ≡ t
      → Edge board level b t u
      → (r' : ℕ → ℕ) × Runs
          (chip_bus board ram_chips)
          (running 0xB4 r, m)
          (running 0xC0 r', record m { sampled = u })
        × Keeps r r'
        × (r' 1 / 16 % 2 ≡ b)
  Runs-loop level b k t u r m (loads, (masks, (branches, rest))) here two at (seen low is) =
      let v : ℕ = board.sample m.sampled 0xF4 % 2 ^ 8 in
      let r₂ = set (set r 1 v) 2 (clock board m.sampled * 8) in
      (
        r₂,
        Runs-sample k r m (running 0xC0 r₂, record m { sampled = suc t }) loads masks here
            (Runs-step
              (step-on level k r₂ (record m { sampled = suc m.sampled }) branches here two
                  (ap (λ (n : ℕ). clock board n * 8) at ∙ ap (λ (n : ℕ). n * 8) low)
                ∙ ap (λ (n : ℕ). (running 0xC0 r₂, record m { sampled = suc n })) at)
              stop),
        (refl, refl, refl),
        omega (arith, ap (data_pin board) at, is),
      )
  Runs-loop level b k t u r m (loads, (masks, (branches, rest))) here two at (waits other later) =
      let v : ℕ = board.sample m.sampled 0xF4 % 2 ^ 8 in
      let r₂ = set (set r 1 v) 2 (clock board m.sampled * 8) in
      let m₁ = record m { sampled = suc m.sampled } in
      let (r', run, (k4, k5, k6), is) =
        Runs-loop level b k (suc t) u r₂ m₁ (loads, (masks, (branches, rest))) here two (ap suc at)
          later in
      (
        r',
        Runs-sample k r m (running 0xC0 r', record m { sampled = u }) loads masks here
            (Runs-step
              (step-again level k r₂ m₁ branches here two
                (ap (λ (n : ℕ). clock board n * 8) at ∙ ap (λ (n : ℕ). n * 8) other))
              run),
        (k4, k5, k6),
        is,
      )

  -- A `wait_clock` page ends at the poll that sees the level, on the page `next`.
  pub Runs-poll :
      (level b k next t u : ℕ) (r : ℕ → ℕ) (m : Chip D)
      → HasWords board k 0 (poll_words level next)
      → word_at board.flash (next * 44 + 40) ≡ trampoline 44
      → next < 256
      → OnPage k m
      → level < 2
      → m.sampled ≡ t
      → Edge board level b t u
      → (r' : ℕ → ℕ) × Runs
          (chip_bus board ram_chips)
          (running 0xB4 r, m)
          (running 0xB4 r', record m { flash_page = next; sampled = u })
        × Keeps r r'
  Runs-poll level b k next t u r m (loads, (masks, (branches, code))) bounces small here two at
        edge =
      let (r', loop, kept, is) =
        Runs-loop level b k t u r m (loads, (masks, (branches, tt))) here two at edge in
      let (padded, tail) =
        Runs-nops board ram_chips 5 3 k (switch_words next) r' (record m { sampled = u }) code here
          (omega arith) in
      let switched = Runs-switch k next r' (record m { sampled = u }) tail bounces here small in
      (set r' 30 next, Runs-trans loop (Runs-trans padded switched), kept)
