-- ===== src/Scripts/BootRom/Steps.antt =====
-- The words of tools/build_boot_rom.py in the chip's ROM, one instruction at a time.
use agil_a.Common.{
  ℕ, suc, ◌+◌, ◌*◌, ◌%◌, ◌^◌, ◌<◌, ◌≡◌, refl, ap, ◌∙◌, arith, Bool, if◌then◌else◌, some, List, [],
  ◌∷◌, get_elem?, ok,
}
use agil_a.Common.Int.{ℤ, pos, neg, mask}
use agil_a.Asm.Encode.{
  Instr, word, add, or, addi, andi, ori, slli, srli, lw, lbu, jalr, sb, sw, branch_word, jal_word,
}
use agil_a.Core.Alu.{branch_cond}
use agil_a.Core.Exec.{exec, step, reg, set_reg}
use agil_a.Core.Meaning.{perform, IsEncodable}
use agil_a.Core.Encoded.Instrs.{exec-word}
use agil_a.Core.Encoded.Formats.{exec_branch, exec_jal}
use agil_a.Core.Runs.{running}
use agil_a.Chip.Memory.{Board, Psram, Chip, read, chip_bus, word_at}
use agil_a.Scripts.BootRom.{boot_rom}

-- The words of the boot ROM.
abbrev pub boot_words : List ℕ
boot_words =
    word (addi 2 0 (pos 0xA5))
    ∷ word (sb 2 0 (pos 0xE0))
    ∷ word (lbu 6 0 (pos 0xE0))
    ∷ word (addi 8 0 (pos 0))
    ∷ branch_word 0 6 2 (pos 8)
    ∷ word (addi 8 0 (pos 0x80))
    ∷ word (addi 9 0 (pos 0))
    ∷ word (lw 2 0 (pos 0xF4))
    ∷ word (andi 2 2 (pos 4))
    ∷ branch_word 1 2 0 (pos 36)
    ∷ word (addi 9 9 (pos 1))
    ∷ word (andi 3 9 (pos 0xF))
    ∷ word (or 2 8 3)
    ∷ word (sw 2 0 (pos 0xF0))
    ∷ word (srli 3 9 (pos 9))
    ∷ branch_word 0 3 0 (neg 32)
    ∷ word (sw 0 0 (pos 0xF8))
    ∷ jal_word 0 (pos 40)
    ∷ jal_word 1 (pos 40)
    ∷ word (add 4 6 0)
    ∷ word (addi 5 0 (pos 0xB4))
    ∷ branch_word 0 4 0 (pos 24)
    ∷ jal_word 1 (pos 24)
    ∷ word (sb 6 5 (pos 0))
    ∷ word (addi 5 5 (pos 1))
    ∷ word (addi 4 4 (neg 1))
    ∷ jal_word 0 (neg 20)
    ∷ jal_word 0 (pos 72)
    ∷ word (addi 6 0 (pos 0))
    ∷ word (addi 7 0 (pos 0))
    ∷ word (lw 2 0 (pos 0xF4))
    ∷ word (andi 3 2 (pos 2))
    ∷ branch_word 0 3 0 (neg 8)
    ∷ word (andi 2 2 (pos 1))
    ∷ word (slli 6 6 (pos 1))
    ∷ branch_word 0 2 0 (pos 8)
    ∷ word (ori 6 6 (pos 1))
    ∷ word (lw 2 0 (pos 0xF4))
    ∷ word (andi 2 2 (pos 2))
    ∷ branch_word 1 2 0 (neg 8)
    ∷ word (addi 7 7 (pos 1))
    ∷ word (addi 3 0 (pos 8))
    ∷ branch_word 4 7 3 (neg 48)
    ∷ word (jalr 0 1 (pos 0))
    ∷ []

pub boot_rom-words : boot_rom ≡ ok boot_words
unfolding boot_rom word branch_word jal_word
boot_rom-words = refl

-- The chip's ROM has the words of the boot ROM from address 0 on.
abbrev pub HasBootRom : Board → Type 0
HasBootRom board = (i w : ℕ) → get_elem? boot_words i ≡ some w → word_at board.rom (i * 4) ≡ w

module _ {D : Type 0} (board : Board) (ram_chips : Psram D) (rom : HasBootRom board) where
  read-rom :
      (m : Chip D) (i : ℕ)
      → i < 44
      → read board ram_chips m (i * 4) 2 ≡ (word_at board.rom (i * 4), m)
  unfolding read
  read-rom m i h = ground arith

  step-rom :
      (i w : ℕ) (r : ℕ → ℕ) (m : Chip D)
      → get_elem? boot_words i ≡ some w
      → i < 44
      → step (chip_bus board ram_chips) (running (i * 4) r, m)
        ≡ exec (chip_bus board ram_chips) w (running (i * 4) r) m
  unfolding step
  step-rom i w r m at h = rw (read-rom m i h, rom i w at)

  pub rom-instr :
      (i : ℕ) (ins : Instr) (r : ℕ → ℕ) (m : Chip D)
      → get_elem? boot_words i ≡ some (word ins)
      → i < 44
      → IsEncodable ins
      → step (chip_bus board ram_chips) (running (i * 4) r, m)
        ≡ perform (chip_bus board ram_chips) ins (running (i * 4) r) m
  rom-instr i ins r m at h fits =
      step-rom i (word ins) r m at h
      ∙ exec-word (chip_bus board ram_chips) ins (running (i * 4) r) m fits

  pub rom-branch :
      (i funct3 rs1 rs2 : ℕ) (off : ℤ) (taken : Bool) (r : ℕ → ℕ) (m : Chip D)
      → get_elem? boot_words i ≡ some (branch_word funct3 rs1 rs2 off)
      → i < 44
      → (rs1 < 32) × (rs2 < 32) × (funct3 < 8)
      → mask 13 off % 2 ≡ 0
      → branch_cond funct3 (reg (running (i * 4) r) rs1) (reg (running (i * 4) r) rs2) ≡ taken
      → step (chip_bus board ram_chips) (running (i * 4) r, m)
        ≡ (running (if taken then (i * 4 + mask 13 off % 256) % 256 else (i * 4 + 4) % 256) r, m)
  rom-branch i funct3 rs1 rs2 off taken r m at h (h1, h2, h3) even is =
      step-rom i (branch_word funct3 rs1 rs2 off) r m at h
      ∙ exec_branch (chip_bus board ram_chips) (running (i * 4) r) m funct3 rs1 rs2 off h1 h2 h3
          even
      ∙ ap
          (λ (t : Bool).
            (running (if t then (i * 4 + mask 13 off % 256) % 256 else (i * 4 + 4) % 256) r, m))
          is

  pub rom-jal :
      (i rd : ℕ) (off : ℤ) (r : ℕ → ℕ) (m : Chip D)
      → get_elem? boot_words i ≡ some (jal_word rd off)
      → i < 44
      → rd < 32
      → mask 21 off % 2 ≡ 0
      → step (chip_bus board ram_chips) (running (i * 4) r, m) ≡ (
        record (set_reg (running (i * 4) r) rd (i * 4 + 4)) {
          pc = (i * 4 + mask 21 off % 256) % 256;
        },
        m,
      )
  rom-jal i rd off r m at h hd even =
      step-rom i (jal_word rd off) r m at h
      ∙ exec_jal (chip_bus board ram_chips) (running (i * 4) r) m rd off hd even

  -- The word of GPIO_IN, once sampled.
  pub read-pins :
      (m : Chip D)
      → read board ram_chips m 0xF4 2
        ≡ (board.sample m.sampled 0xF4 % 2 ^ 8, record m { sampled = suc m.sampled })
  unfolding read
  read-pins m = ground arith
