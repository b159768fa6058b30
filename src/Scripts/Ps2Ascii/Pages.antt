-- ===== src/Scripts/Ps2Ascii/Pages.antt =====
-- The words of the image of tools/build_ps2_ascii.py, page by page.
use mathlib.Core.List.{flatten}
use agil_a.Common.{ℕ, zero, suc, ◌≡◌, refl, true, List, [], ◌∷◌, ◌++◌, map, replicate, ok}
use agil_a.Common.Int.{pos}
use agil_a.Asm.Encode.{word, add, addi, sw, jal_word, branch_word}
use agil_a.Asm.Bytes.Laws.{to_bytes}
use agil_a.Paged.Layout.{nop}
use agil_a.Chip.Run.{close_words}
use agil_a.Chip.Image.{are_pages}
use agil_a.Scripts.Ps2Reader.Poll.{switch_words}
use agil_a.Scripts.Ps2Reader.Receive.{frame_words}
use agil_a.Scripts.Ps2Ascii.{ps2_ascii, ascii_of}

-- Page 0 behind its first word, and the whole page.
abbrev pub clear_words : List ℕ
clear_words =
    word (addi 4 0 (pos 0))
    ∷ word (addi 5 0 (pos 0))
    ∷ word (addi 6 0 (pos 0))
    ∷ (replicate 4 nop ++ switch_words 1)

abbrev pub init_words : List ℕ
init_words = nop ∷ clear_words

abbrev pub bp_words : List ℕ
bp_words =
    branch_word 0 5 0 (pos 24)
    ∷ word (addi 5 0 (pos 0))
    ∷ word (addi 6 0 (pos 0))
    ∷ word (addi 4 0 (pos 0))
    ∷ word (addi 30 0 (pos 1))
    ∷ jal_word 0 (pos 8)
    ∷ word (addi 30 0 (pos 24))
    ∷ (replicate 2 nop ++ close_words)

-- The pages of the two prefixes: `prefix` sets register `flag`.
abbrev pub prefix_words : ℕ → ℕ → ℕ → List ℕ
prefix_words prefix flag next =
    word (addi 7 0 (pos prefix))
    ∷ branch_word 0 4 7 (pos 12)
    ∷ word (addi 30 0 (pos next))
    ∷ jal_word 0 (pos 16)
    ∷ word (addi flag 0 (pos 1))
    ∷ word (addi 4 0 (pos 0))
    ∷ word (addi 30 0 (pos 1))
    ∷ (replicate 2 nop ++ close_words)

abbrev pub extcheck_words : List ℕ
extcheck_words =
    branch_word 0 6 0 (pos 20)
    ∷ word (addi 6 0 (pos 0))
    ∷ word (addi 4 0 (pos 0))
    ∷ word (addi 30 0 (pos 1))
    ∷ jal_word 0 (pos 8)
    ∷ word (addi 30 0 (pos 27))
    ∷ (replicate 3 nop ++ close_words)

abbrev pub dispatch_words : List ℕ
dispatch_words =
    word (addi 7 0 (pos 226))
    ∷ branch_word 4 7 4 (pos 16)
    ∷ word (addi 7 0 (pos 29))
    ∷ word (add 30 4 7)
    ∷ jal_word 0 (pos 8)
    ∷ word (addi 30 0 (pos 29))
    ∷ (replicate 3 nop ++ close_words)

abbrev pub emit_words : List ℕ
emit_words =
    word (sw 8 0 (pos 0xF0)) ∷ word (addi 4 0 (pos 0)) ∷ (replicate 6 nop ++ switch_words 1)

-- The page of one scancode, and of the scancodes from `s` on.
abbrev pub entry_words : ℕ → List ℕ
entry_words s = word (addi 8 0 (pos (ascii_of s))) ∷ (replicate 7 nop ++ switch_words 28)

abbrev pub table_words : ℕ → ℕ → List (List ℕ)
table_words zero s = []
table_words (suc left) s = entry_words s ∷ table_words left (suc s)

-- The pages from 23 on, and all of them.
abbrev pub process_words : List (List ℕ)
process_words =
    bp_words
    ∷ prefix_words 0xF0 5 25
    ∷ prefix_words 0xE0 6 26
    ∷ extcheck_words
    ∷ dispatch_words
    ∷ emit_words
    ∷ table_words 227 0

abbrev pub ascii_words : List (List ℕ)
ascii_words = init_words ∷ (frame_words ++ process_words)

pub ps2_ascii-words : ps2_ascii ≡ ok (flatten (map to_bytes ascii_words))
unfolding ps2_ascii word flatten ascii_of branch_word jal_word
ps2_ascii-words = refl

pub ascii_pages_fit : are_pages ascii_words ≡ true
unfolding word jal_word branch_word ascii_of
ascii_pages_fit = refl
