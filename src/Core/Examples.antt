-- ===== src/Core/Examples.antt =====
-- The countdown program on the core of src/rv32i_core.v, with a memory of words behind the bus.
use agil_a.Common.{ℕ, ◌+◌, ◌%◌, ◌≡◌, ◌==◌, refl, arith, false, some, get_elem?, if◌then◌else◌}
use agil_a.Common.Int.{neg}
use agil_a.Asm.Encode.{addi, word}
use agil_a.Asm.State.{find_label}
use agil_a.Asm.Examples.{
  countdown, countdown_items, countdown_words, countdown-Builds, countdown_returns,
}
use agil_a.Core.Alu.{branch_cond}
use agil_a.Core.Exec.{Core, Bus, reg, set_reg, exec}
use agil_a.Core.Meaning.{perform}
use agil_a.Core.Encoded.Instrs.{exec-word}
use agil_a.Core.Encoded.Jumps.{exec-branch_label, exec-jal_label}

-- A memory that holds a word at each address.
abbrev words_bus : Bus (ℕ → ℕ)
words_bus = record {
  read = λ m at size. (m at, m);
  write = λ m at size v. λ b. if b == at then v else m b;
}

abbrev zeros : ℕ → ℕ
zeros at = 0

-- A core at `pc` whose registers hold 7.
abbrev sevens : ℕ → Core
sevens pc = record { pc = pc; regs = λ r. 7; halted = false }

exec-word_example :
    exec words_bus (word (addi 5 5 (neg 1))) (sevens 8) zeros
    ≡ perform words_bus (addi 5 5 (neg 1)) (sevens 8) zeros
exec-word_example =
    exec-word words_bus (addi 5 5 (neg 1)) (sevens 8) zeros
      (omega arith, omega arith, (omega arith, omega arith))

exec-branch_label_example :
    (w at : ℕ) × (get_elem? countdown_words 1 ≡ some w)
    × (find_label "DONE" countdown.labels ≡ some at)
    × (exec words_bus w (sevens 4) zeros ≡ (
      record (sevens 4) {
        pc =
            if branch_cond 0 (reg (sevens 4) 5) (reg (sevens 4) 0) then at % 256 else (4 + 4) % 256;
      },
      zeros,
    ))
exec-branch_label_example =
    exec-branch_label words_bus (sevens 4) zeros 0 countdown countdown_items countdown_words
      countdown-Builds countdown_returns 1 refl 0 5 0 "DONE" (omega arith) (omega arith)
      (omega arith) refl

exec-jal_label_example :
    (w at : ℕ) × (get_elem? countdown_words 3 ≡ some w)
    × (find_label "LOOP" countdown.labels ≡ some at)
    × (exec words_bus w (sevens 12) zeros
        ≡ (record (set_reg (sevens 12) 0 (12 + 4)) { pc = at % 256 }, zeros))
exec-jal_label_example =
    exec-jal_label words_bus (sevens 12) zeros 0 countdown countdown_items countdown_words
      countdown-Builds countdown_returns 3 refl 0 "LOOP" (omega arith) refl
