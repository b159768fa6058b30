-- ===== src/Scripts/BootRom/Case.antt =====
-- The function `rom_word_at` of src/mem.v, a case statement whose arms are the text of
-- boot_rom_body.vh: what the text of tools/build_boot_rom.py makes of each index.
use agil_a.Common.{
  ℕ, zero, suc, ◌+◌, ◌*◌, ◌%◌, ◌^◌, ◌≤◌, ◌<◌, ◌≡◌, refl, ap, ◌∙◌, arith, true, false, append_assoc,
  Option, none, some, List, [], ◌∷◌, ◌++◌, length, length-append, get_elem?, ◌==◌, ==_iff,
  if◌then◌else◌,
}
use agil_a.Asm.Bytes.Laws.{AllBelow}
use agil_a.Scripts.BootRom.Body.{codes, decimal, hex_pad, arm_line, body_lines}
use agil_a.Scripts.BootRom.Literals.{or_zero, number, number-decimal, number-hex_pad}

abbrev and_then : {A B : Type 0} → Option A → (A → Option B) → Option B
and_then none f = none
and_then (some a) f = f a

-- What follows a given beginning of a text.
abbrev after : List ℕ → List ℕ → Option (List ℕ)
after [] text = some text
after (c ∷ cs) [] = none
after (c ∷ cs) (d ∷ text) = if c == d then after cs text else none

-- `6'd<index>: rom_word_at = 32'h<word>;` on a line of its own: the index, the word and the rest.
abbrev arm_end : ℕ → ℕ × List ℕ → Option (ℕ × ℕ × List ℕ)
arm_end i (w, text) = and_then (after (codes ";\n") text) (λ rest. some (i, w, rest))

abbrev arm_word : ℕ × List ℕ → Option (ℕ × ℕ × List ℕ)
arm_word (i, text) =
    and_then (after (codes ": rom_word_at = 32'h") text) (λ t. arm_end i (number 16 0 t))

abbrev read_arm : List ℕ → Option (ℕ × ℕ × List ℕ)
read_arm text = and_then (after (codes "                6'd") text) (λ t. arm_word (number 10 0 t))

abbrev with_arm : ℕ → ℕ → Option (List (ℕ × ℕ)) → Option (List (ℕ × ℕ))
with_arm i w none = none
with_arm i w (some arms) = some ((i, w) ∷ arms)

-- The arms of the whole text, or none where it has anything else.
abbrev read_arms : ℕ → List ℕ → Option (List (ℕ × ℕ))
read_arms fuel [] = some []
read_arms zero (c ∷ text) = none
read_arms (suc fuel) (c ∷ text) =
    and_then (read_arm (c ∷ text)) (λ (i, w, rest). with_arm i w (read_arms fuel rest))

-- The case statement: an index of six bits, words of 32 bits, the first arm that fits, and the default.
unfoldable case_of : List (ℕ × ℕ) → ℕ → ℕ
case_of [] widx = 0
case_of ((i, w) ∷ arms) widx = if i % 2 ^ 6 == widx then w % 2 ^ 32 else case_of arms widx

-- `rom_word_at` with the text between its `case` and its `default`.
unfoldable pub rom_word_at : List ℕ → ℕ → Option ℕ
unfolding case_of
rom_word_at text widx = and_then (read_arms (length text) text) (λ arms. some (case_of arms widx))

after-append : (cs text : List ℕ) → after cs (cs ++ text) ≡ some text
after-append [] text = refl
after-append (c ∷ cs) text =
    let same : (c == c) ≡ true = (==_iff c c).1 refl in rw same (after-append cs text)

regroup :
    (a b c d e text : List ℕ)
    → (a ++ b ++ c ++ d ++ e) ++ text ≡ a ++ (b ++ (c ++ (d ++ (e ++ text))))
regroup a b c d e text = simp append_assoc

-- An arm reads back as its index and its word.
read_arm-arm_line :
    (i w : ℕ) (text : List ℕ) → w < 2 ^ 32 → read_arm (arm_line i w ++ text) ≡ some (i, w, text)
unfolding arm_line
read_arm-arm_line i w text small =
    let index = decimal (suc i) i in
    let start = codes "                6'd" in
    let middle = codes ": rom_word_at = 32'h" in
    let end = codes ";\n" in
    let digits = hex_pad 8 w ++ (end ++ text) in
    let whole : 0 * 16 ^ 8 + w ≡ w = omega arith in
    ap read_arm (regroup start index middle (hex_pad 8 w) end text)
    ∙ ap (λ o. and_then o (λ t. arm_word (number 10 0 t)))
        (after-append start (index ++ (middle ++ digits)))
    ∙ ap arm_word (number-decimal (suc i) i (middle ++ digits) (omega arith))
    ∙ ap (λ o. and_then o (λ t. arm_end i (number 16 0 t))) (after-append middle digits)
    ∙ ap (arm_end i) (number-hex_pad 8 0 w (end ++ text) (omega arith))
    ∙ ap (λ (v : ℕ). some (i, v, text)) whole

-- The words with their indices.
abbrev pub enumerate : ℕ → List ℕ → List (ℕ × ℕ)
enumerate i [] = []
enumerate i (w ∷ words) = (i, w) ∷ enumerate (suc i) words

read_arms-arm_line :
    (fuel i w : ℕ) (text : List ℕ)
    → read_arms (suc fuel) (arm_line i w ++ text)
      ≡ and_then
          (read_arm (arm_line i w ++ text))
          (λ (j, v, rest). with_arm j v (read_arms fuel rest))
unfolding arm_line
read_arms-arm_line fuel i w text = refl

-- The lines read back as the words with their indices.
read_arms-body_lines :
    (fuel i : ℕ) (words : List ℕ)
    → AllBelow (2 ^ 32) words
    → length words ≤ fuel
    → read_arms fuel (body_lines i words) ≡ some (enumerate i words)
unfolding body_lines
read_arms-body_lines fuel i [] below enough = refl
read_arms-body_lines zero i (w ∷ words) below enough = absurd (omega arith)
read_arms-body_lines (suc fuel) i (w ∷ words) (small, below) enough =
    let rest = body_lines (suc i) words in
    read_arms-arm_line fuel i w rest
    ∙ ap (λ a. and_then a (λ (j, v, text). with_arm j v (read_arms fuel text)))
        (read_arm-arm_line i w rest small)
    ∙ ap (with_arm i w) (read_arms-body_lines fuel (suc i) words below (omega arith))

length-arm_line : (i w : ℕ) → 1 ≤ length (arm_line i w)
unfolding arm_line
length-arm_line i w = omega arith

length-body_lines : (i : ℕ) (words : List ℕ) → length words ≤ length (body_lines i words)
unfolding body_lines
length-body_lines i [] = omega arith
length-body_lines i (w ∷ words) = omega (
  arith,
  length-append {0} (arm_line i w) (body_lines (suc i) words),
  length-arm_line i w,
  length-body_lines (suc i) words,
)

-- The first arm that fits is the word's own, with no more words than six bits can count.
case_of-enumerate :
    (i j : ℕ) (words : List ℕ)
    → AllBelow (2 ^ 32) words
    → i + length words ≤ 64
    → case_of (enumerate i words) (i + j) ≡ or_zero (get_elem? words j)
unfolding case_of
case_of-enumerate i j [] below room = refl
case_of-enumerate i zero (w ∷ words) (small, below) room =
    let here : (i % 2 ^ 6 == i + 0) ≡ true = ground arith in
    let whole : w % 2 ^ 32 ≡ w = omega arith in rw (here, whole) refl
case_of-enumerate i (suc j) (w ∷ words) (small, below) room =
    let apart : (i % 2 ^ 6 == i + suc j) ≡ false = ground arith in
    let shift : i + suc j ≡ suc i + j = omega arith in
    rw apart (
      ap (case_of (enumerate (suc i) words)) shift
      ∙ case_of-enumerate (suc i) j words below (omega arith))

-- The text that the script writes for at most 64 words of 32 bits, between the `case` and the
-- `default` of `rom_word_at`: every line of it is a case arm, and at each index the function has the
-- word of that index, and 0 behind the last.
pub rom_word_at-body_lines :
    (words : List ℕ) (widx : ℕ)
    → AllBelow (2 ^ 32) words
    → length words ≤ 64
    → rom_word_at (body_lines 0 words) widx ≡ some (or_zero (get_elem? words widx))
unfolding rom_word_at
rom_word_at-body_lines words widx below room =
    let here : widx ≡ 0 + widx = omega arith in
    ap (λ o. and_then o (λ arms. some (case_of arms widx)))
      (read_arms-body_lines (length (body_lines 0 words)) 0 words below (length-body_lines 0 words))
    ∙ ap some
        (ap (case_of (enumerate 0 words)) here ∙ case_of-enumerate 0 widx words below (omega arith))
