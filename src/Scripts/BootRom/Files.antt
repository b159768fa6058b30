-- ===== src/Scripts/BootRom/Files.antt =====
-- The two files that tools/build_boot_rom.py writes, boot_rom_body.vh for src/mem.v and boot_rom.hex, give
-- the same ROM.
use agil_a.Common.{
  ℕ, zero, suc, ◌*◌, ◌^◌, ◌<◌, ◌≡◌, refl, sym, ap, ◌∙◌, arith, true, some, List, [], ◌∷◌, length,
  get_elem?, Result, ok, ◌>>=◌, ltb, ltb→lt,
}
use agil_a.Asm.Bytes.Laws.{AllBelow}
use agil_a.Chip.Memory.{Board, word_at}
use agil_a.Chip.Image.{HasBytes, below_word, &&-both}
use agil_a.Scripts.BootRom.{boot_rom_bytes}
use agil_a.Scripts.BootRom.Steps.{boot_words, boot_rom-words}
use agil_a.Scripts.BootRom.Rom.{words_fit, boot_rom_bytes-HasBootRom}
use agil_a.Scripts.BootRom.Body.{body_lines, boot_rom_body}
use agil_a.Scripts.BootRom.Literals.{or_zero}
use agil_a.Scripts.BootRom.Case.{rom_word_at, rom_word_at-body_lines}

below_word-AllBelow : (ws : List ℕ) → below_word ws ≡ true → AllBelow (2 ^ 32) ws
below_word-AllBelow [] h = tt
below_word-AllBelow (w ∷ ws) h =
    let (small, later) = &&-both (ltb w (2 ^ 32)) (below_word ws) h in
    (ltb→lt w (2 ^ 32) small, below_word-AllBelow ws later)

get_elem?-or_zero :
    (xs : List ℕ) (i : ℕ) → i < length xs → get_elem? xs i ≡ some (or_zero (get_elem? xs i))
get_elem?-or_zero [] i h = absurd (omega arith)
get_elem?-or_zero (x ∷ xs) zero h = refl
get_elem?-or_zero (x ∷ xs) (suc i) h = get_elem?-or_zero xs i (omega arith)

pub boot_rom_body-words : boot_rom_body ≡ ok (body_lines 0 boot_words)
unfolding boot_rom_body
boot_rom_body-words = ap (λ (r : Result (List ℕ)). r >>= λ ws. ok (body_lines 0 ws)) boot_rom-words

-- What the case statement has at any index of the boot ROM's text.
pub rom_word_at-boot_words :
    (text : List ℕ) (widx : ℕ)
    → boot_rom_body ≡ ok text
    → rom_word_at text widx ≡ some (or_zero (get_elem? boot_words widx))
rom_word_at-boot_words text widx body =
    let same : text ≡ body_lines 0 boot_words = (let e = sym body ∙ boot_rom_body-words in cc) in
    let size : length boot_words ≡ 44 = refl in
    ap (λ t. rom_word_at t widx) same
    ∙ rom_word_at-body_lines boot_words widx (below_word-AllBelow boot_words words_fit)
        (omega (arith, size))

-- A ROM that holds the bytes of boot_rom.hex from address 0 on has, in each of its 44 words, what the
-- case arms of boot_rom_body.vh say for the word's index.
pub rom_word_at-boot_rom_bytes :
    (board : Board) (bytes text : List ℕ) (widx : ℕ)
    → boot_rom_bytes ≡ ok bytes
    → boot_rom_body ≡ ok text
    → HasBytes board.rom 0 bytes
    → widx < 44
    → rom_word_at text widx ≡ some (word_at board.rom (widx * 4))
rom_word_at-boot_rom_bytes board bytes text widx hex body holds inside =
    let size : length boot_words ≡ 44 = refl in
    let word = or_zero (get_elem? boot_words widx) in
    let there = get_elem?-or_zero boot_words widx (omega (arith, size, inside)) in
    rom_word_at-boot_words text widx body
    ∙ ap some (sym (boot_rom_bytes-HasBootRom board bytes hex holds widx word there))
