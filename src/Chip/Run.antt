-- ===== src/Chip/Run.antt =====
-- Instructions fetched from a page of the flash, through the window of src/mem.v.
use agil_a.Common.{
  ℕ, zero, suc, ◌+◌, ◌*◌, ◌%◌, ◌^◌, ◌<◌, ◌≡◌, refl, ap, subst, ◌∙◌, arith, Bool, true,
  if◌then◌else◌, List, [], ◌∷◌, replicate, ◌++◌, ◌==◌, false,
}
use agil_a.Asm.Encode.{Instr, word, addi, sw, branch_word, jal_word}
use agil_a.Core.Exec.{exec, step, reg, set_reg}
use agil_a.Core.Meaning.{perform, IsEncodable}
use agil_a.Core.Encoded.Instrs.{exec-word}
use native.Mathlib.Nat.{add-zero}
use agil_a.Common.Int.{ℤ, pos, neg, mask}
use agil_a.Core.Encoded.Formats.{exec_branch, exec_jal}
use agil_a.Core.Alu.{branch_cond}
use agil_a.Paged.Layout.{nop, trampoline}
use agil_a.Core.Runs.{set, Runs, stop, running, Runs-step, Runs-trans}
use agil_a.Chip.Memory.{Board, Psram, Chip, read, write, chip_bus, word_at}

-- Page `k` of the flash holds these words from its word `i` on.
abbrev pub HasWords : Board → ℕ → ℕ → List ℕ → Type 0
HasWords board k i [] = Unit
HasWords board k i (w ∷ ws) =
    (word_at board.flash (k * 44 + i * 4) ≡ w) × HasWords board k (suc i) ws

-- The two words that close a page whose next page is in x30.
abbrev pub close_words : List ℕ
close_words = word (sw 30 0 (pos 0xFC)) ∷ trampoline 44 ∷ []

-- The chip runs from page `k`.
abbrev pub OnPage : {D : Type 0} → ℕ → Chip D → Type 0
OnPage k m = (m.flash_mode ≡ true) × (m.flash_page ≡ k)

module _ {D : Type 0} (board : Board) (ram_chips : Psram D) where
  read-window :
      (m : Chip D) (k i : ℕ)
      → OnPage k m
      → i < 11
      → read board ram_chips m (0xB4 + i * 4) 2 ≡ (word_at board.flash (k * 44 + i * 4), m)
  unfolding read
  read-window m k i (mode, at) h = ground arith

  -- The instruction at word `i` of the page.
  pub step-fetched :
      (k i w : ℕ) (r : ℕ → ℕ) (m : Chip D)
      → word_at board.flash (k * 44 + i * 4) ≡ w
      → OnPage k m
      → i < 11
      → step (chip_bus board ram_chips) (running (0xB4 + i * 4) r, m)
        ≡ exec (chip_bus board ram_chips) w (running (0xB4 + i * 4) r) m
  unfolding step
  step-fetched k i w r m holds here h = rw (read-window m k i here h, holds)

  pub step-instr :
      (k i : ℕ) (ins : Instr) (r : ℕ → ℕ) (m : Chip D)
      → word_at board.flash (k * 44 + i * 4) ≡ word ins
      → OnPage k m
      → i < 11
      → IsEncodable ins
      → step (chip_bus board ram_chips) (running (0xB4 + i * 4) r, m)
        ≡ perform (chip_bus board ram_chips) ins (running (0xB4 + i * 4) r) m
  step-instr k i ins r m holds here h fits =
      step-fetched k i (word ins) r m holds here h
      ∙ exec-word (chip_bus board ram_chips) ins (running (0xB4 + i * 4) r) m fits

  -- The NOPs that pad a page.
  step-nop :
      (k i : ℕ) (r : ℕ → ℕ) (m : Chip D)
      → word_at board.flash (k * 44 + i * 4) ≡ nop
      → OnPage k m
      → i < 10
      → step (chip_bus board ram_chips) (running (0xB4 + i * 4) r, m)
        ≡ (running (0xB4 + suc i * 4) r, m)
  unfolding perform set_reg
  step-nop k i r m holds here h =
      let on : (0xB4 + i * 4 + 4) % 256 ≡ 0xB4 + suc i * 4 = omega arith in
      step-instr k i (addi 0 0 (pos 0)) r m holds here (omega arith)
        (omega arith, omega arith, (omega arith, omega arith))
      ∙ ap (λ (p : ℕ). (running p r, m)) on

  pub Runs-nops :
      (n i k : ℕ) (ws : List ℕ) (r : ℕ → ℕ) (m : Chip D)
      → HasWords board k i (replicate n nop ++ ws)
      → OnPage k m
      → i + n < 11
      → Runs
          (chip_bus board ram_chips)
          (running (0xB4 + i * 4) r, m)
          (running (0xB4 + (i + n) * 4) r, m)
        × HasWords board k (i + n) ws
  Runs-nops zero i k ws r m code here h = rw add-zero (stop, code)
  Runs-nops (suc n) i k ws r m (holds, code) here h =
      let shift : i + suc n ≡ suc i + n = omega arith in
      let (run, rest) = Runs-nops n (suc i) k ws r m code here (omega arith) in
      rw shift (Runs-step (step-nop k i r m holds here (omega arith)) run, rest)

  -- The two words that close a page: the write of FLASH_PAGE, then the trampoline, which is fetched
  -- from the page that has just been chosen.
  pub Runs-close :
      (k target : ℕ) (r : ℕ → ℕ) (m : Chip D)
      → word_at board.flash (k * 44 + 36) ≡ word (sw 30 0 (pos 0xFC))
      → word_at board.flash (target * 44 + 40) ≡ trampoline 44
      → OnPage k m
      → r 30 ≡ target
      → target < 256
      → Runs
          (chip_bus board ram_chips)
          (running 0xD8 r, m)
          (running 0xB4 r, record m { flash_page = target })
  unfolding perform write set_reg reg mask
  Runs-close k target r m holds bounces (mode, at) is small =
      let m' = record m { flash_page = target } in
      let page : r 30 % 2 ^ 8 ≡ target = omega (arith, is) in
      let first : step (chip_bus board ram_chips) (running 0xD8 r, m) ≡ (running 0xDC r, m') =
        step-instr k 9 (sw 30 0 (pos 0xFC)) r m holds (mode, at) (omega arith)
          (omega arith, omega arith, (omega arith, omega arith))
        ∙ ap (λ (v : ℕ). (running 0xDC r, record m { flash_page = v })) page in
      let second : step (chip_bus board ram_chips) (running 0xDC r, m') ≡ (running 0xB4 r, m') =
        step-fetched target 10 (trampoline 44) r m' bounces (mode, refl) (omega arith)
        ∙ exec_jal (chip_bus board ram_chips) (running 0xDC r) m' 0 (neg 40) (omega arith) refl in
      Runs-step first (Runs-step second stop)

  -- A branch of the page, and a jump that links nothing.
  pub step-branch :
      (k i funct3 rs1 rs2 : ℕ) (off : ℤ) (taken : Bool) (r : ℕ → ℕ) (m : Chip D)
      → word_at board.flash (k * 44 + i * 4) ≡ branch_word funct3 rs1 rs2 off
      → OnPage k m
      → i < 11
      → (rs1 < 32) × (rs2 < 32) × (funct3 < 8)
      → mask 13 off % 2 ≡ 0
      → branch_cond funct3 (reg (running (0xB4 + i * 4) r) rs1) (reg (running (0xB4 + i * 4) r) rs2)
        ≡ taken
      → step (chip_bus board ram_chips) (running (0xB4 + i * 4) r, m) ≡ (
        running
            (if taken then (0xB4 + i * 4 + mask 13 off % 256) % 256 else (0xB4 + i * 4 + 4) % 256)
            r,
        m,
      )
  step-branch k i funct3 rs1 rs2 off taken r m holds here h (h1, h2, h3) even is =
      step-fetched k i (branch_word funct3 rs1 rs2 off) r m holds here h
      ∙ exec_branch (chip_bus board ram_chips) (running (0xB4 + i * 4) r) m funct3 rs1 rs2 off h1 h2
          h3 even
      ∙ ap
          (λ (t : Bool). (
            running
                (if t then (0xB4 + i * 4 + mask 13 off % 256) % 256 else (0xB4 + i * 4 + 4) % 256)
                r,
            m,
          ))
          is

  pub step-jump :
      (k i : ℕ) (off : ℤ) (r : ℕ → ℕ) (m : Chip D)
      → word_at board.flash (k * 44 + i * 4) ≡ jal_word 0 off
      → OnPage k m
      → i < 11
      → mask 21 off % 2 ≡ 0
      → step (chip_bus board ram_chips) (running (0xB4 + i * 4) r, m)
        ≡ (running ((0xB4 + i * 4 + mask 21 off % 256) % 256) r, m)
  unfolding set_reg
  step-jump k i off r m holds here h even =
      step-fetched k i (jal_word 0 off) r m holds here h
      ∙ exec_jal (chip_bus board ram_chips) (running (0xB4 + i * 4) r) m 0 off (omega arith) even

  -- The padding and the close of a page whose next page is in x30.
  pub Runs-leave :
      (n i k target : ℕ) (r : ℕ → ℕ) (m : Chip D)
      → HasWords board k i (replicate n nop ++ close_words)
      → word_at board.flash (target * 44 + 40) ≡ trampoline 44
      → OnPage k m
      → i + n ≡ 9
      → r 30 ≡ target
      → target < 256
      → Runs
          (chip_bus board ram_chips)
          (running (0xB4 + i * 4) r, m)
          (running 0xB4 r, record m { flash_page = target })
  Runs-leave n i k target r m code bounces here full is small =
      let (padded, tail) = Runs-nops n i k close_words r m code here (omega arith) in
      let (run, (holds, _)) =
        subst
          (λ x.
            Runs (chip_bus board ram_chips) (running (0xB4 + i * 4) r, m)
              (running (0xB4 + x * 4) r, m)
            × HasWords board k x close_words)
          full (padded, tail) in
      Runs-trans run (Runs-close k target r m holds bounces here is small)

  -- One instruction that loads a constant.
  pub step-load :
      (m : Chip D) (mode : m.flash_mode ≡ true) (page i rd n : ℕ) (r : ℕ → ℕ)
      → word_at board.flash (page * 44 + i * 4) ≡ word (addi (suc rd) 0 (pos n))
      → i < 11
      → suc rd < 32
      → n < 2048
      → step (chip_bus board ram_chips) (running (0xB4 + i * 4) r, record m { flash_page = page })
        ≡ (running ((0xB4 + i * 4 + 4) % 256) (set r (suc rd) n), record m { flash_page = page })
  unfolding perform set_reg reg mask
  step-load m mode page i rd n r holds h hd small =
      let value : (0 + n % 2 ^ 32) % 2 ^ 32 ≡ n = omega arith in
      let there : (suc rd == 0) ≡ false = ground arith in
      step-instr page i (addi (suc rd) 0 (pos n)) r (record m { flash_page = page }) holds
        (mode, refl) h (omega arith, omega arith, (omega arith, omega arith))
      ∙ rw (there, value) refl
