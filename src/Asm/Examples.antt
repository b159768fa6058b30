-- ===== src/Asm/Examples.antt =====
-- A countdown program for tools/asm_pineapple.py's `Asm`, on which the theorems are applied.
use agil_a.Common.{
  ℕ, ◌*◌, ◌≡◌, refl, arith, none, some, List, [], ◌∷◌, get_elem?, ok, true, String, length,
}
use agil_a.Common.Int.{pos, neg}
use text.Mathlib.TextEquality.{eq_iff}
use text.Mathlib.Text.{◌==◌ as str_eq}
use agil_a.Asm.Labels.{find_label-label}
use agil_a.Asm.Encode.{addi, ebreak, word}
use agil_a.Asm.State.{addr, find_label, Asm, emit, op, label, branch_to, jal_to, branch, jal}
use agil_a.Asm.Finalize.{finalize}
use agil_a.Asm.Finalize.Refines.{
  Item, done, pending, item_word, assemble, Builds, start, one, branched, jumped, labelled,
  finalize-Builds,
}
use agil_a.Asm.Finalize.Indices.{nth-finalize}
use agil_a.Asm.Finalize.Total.{HaveLabels, finalize_total}
use agil_a.Asm.Bytes.{words_to_bytes}
use agil_a.Asm.Bytes.Laws.{AllBelow, bytes_to_words, words_to_bytes-bytes_to_words}

-- x5 counts down from 3; then the core halts.
abbrev pub countdown_items : List Item
countdown_items =
    done (word (addi 5 0 (pos 3)))
    ∷ pending (branch 0 5 0 "DONE")
    ∷ done (word (addi 5 5 (neg 1)))
    ∷ pending (jal 0 "LOOP")
    ∷ done (word ebreak)
    ∷ []

abbrev pub countdown : Asm
countdown = record {
  instrs =
      some (word (addi 5 0 (pos 3)))
      ∷ none
      ∷ some (word (addi 5 5 (neg 1)))
      ∷ none
      ∷ some (word ebreak)
      ∷ [];
  labels = ("DONE", 16) ∷ ("LOOP", 4) ∷ [];
  fixups = (1, branch 0 5 0 "DONE") ∷ (3, jal 0 "LOOP") ∷ [];
  base = 0;
}

abbrev pub countdown_words : List ℕ
countdown_words = 0x00300293 ∷ 0x00028663 ∷ 0xfff28293 ∷ 0xff9ff06f ∷ 0x00100073 ∷ []

pub countdown-Builds : Builds 0 countdown countdown_items
unfolding op branch_to jal_to label emit
countdown-Builds =
    one ebreak
      (labelled "DONE"
        (jumped 0 "LOOP"
          (one (addi 5 5 (neg 1))
            (branched 0 5 0 "DONE" (labelled "LOOP" (one (addi 5 0 (pos 3)) start refl) refl) refl)
            refl)
          refl)
        refl)
      refl

pub countdown_returns : finalize countdown ≡ ok countdown_words
unfolding finalize word
countdown_returns = refl

countdown_has_labels : HaveLabels countdown.labels countdown_items
unfolding find_label
countdown_has_labels = ((16, refl), ((4, refl), tt))

finalize-Builds_example : finalize countdown ≡ assemble countdown.labels 0 0 countdown_items
finalize-Builds_example = finalize-Builds 0 countdown countdown_items countdown-Builds

nth-finalize_example :
    (length countdown_words ≡ length countdown_items)
    × ((i : ℕ) (item : Item)
        → get_elem? countdown_items i ≡ some item
        → (w : ℕ) × (get_elem? countdown_words i ≡ some w)
          × (item_word countdown.labels 0 i item ≡ ok w))
nth-finalize_example =
    nth-finalize 0 countdown countdown_items countdown_words countdown-Builds countdown_returns

finalize_total_example :
    (ws : List ℕ) × (finalize countdown ≡ ok ws) × (length ws ≡ length countdown_items)
finalize_total_example =
    finalize_total 0 countdown countdown_items countdown-Builds (omega arith) countdown_has_labels

words_to_bytes-bytes_to_words_example :
    (bs : List ℕ) × (words_to_bytes countdown_words ≡ ok bs)
    × (bytes_to_words bs ≡ countdown_words)
    × (length bs ≡ length countdown_words * 4)
    × AllBelow 256 bs
words_to_bytes-bytes_to_words_example =
    words_to_bytes-bytes_to_words countdown_words
      (omega arith, (omega arith, (omega arith, (omega arith, (omega arith, tt)))))

-- Two names that the program keeps apart.
loop_differs : ¬ (◌≡◌ {A = String} "LOOP" "END")
loop_differs h = let same : (str_eq "LOOP" "END") ≡ true = (eq_iff "LOOP" "END").1 h in cc

find_label-label_example :
    (b : Asm) × (label "END" countdown ≡ ok b)
    × (find_label "END" b.labels ≡ some (addr countdown))
    × (find_label "LOOP" b.labels ≡ find_label "LOOP" countdown.labels)
    × (addr b ≡ addr countdown)
find_label-label_example =
    find_label-label "END" "LOOP" countdown (unfold find_label in refl) loop_differs
