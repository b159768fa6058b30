-- ===== src/Scripts/BootRom/Rom.antt =====
-- The bytes of tools/boot_rom.hex in the chip's ROM are the words of the boot ROM.
use agil_a.Common.{
  ℕ, zero, suc, ◌+◌, ◌*◌, ◌/◌, ◌%◌, ◌^◌, ◌<◌, ◌≡◌, refl, sym, ap, subst, ◌∙◌, arith, true, some,
  List, [], ◌∷◌, get_elem?, Result, ok, ◌>>=◌, ltb, ltb→lt,
}
use agil_a.Common.Bits.{◌>>>◌, ◌&&&◌, bit_and_mask}
use agil_a.Asm.Encode.{word, branch_word, jal_word}
use agil_a.Chip.Memory.{Board, word_at}
use agil_a.Chip.Image.{HasBytes, below_word, &&-both}
use agil_a.Scripts.BootRom.{boot_rom_bytes, hex_bytes}
use agil_a.Scripts.BootRom.Steps.{boot_words, HasBootRom, boot_rom-words}

pub byte : (w k : ℕ) → (w >>> k &&& 0xFF) ≡ w / 2 ^ k % 256
byte w k = bit_and_mask 8 (w / 2 ^ k)

word_at-hex_bytes :
    (bytes : ℕ → ℕ) (at w : ℕ) (ws : List ℕ)
    → w < 2 ^ 32
    → HasBytes bytes at (hex_bytes (w ∷ ws))
    → (word_at bytes at ≡ w) × HasBytes bytes (at + 4) (hex_bytes ws)
unfolding hex_bytes
word_at-hex_bytes bytes at w ws h (e₀, (e₁, (e₂, (e₃, rest)))) =
    let f₁ = ap bytes (omega arith) ∙ e₁ ∙ byte w 8 in
    let one : bytes (at + 1) ≡ w / 2 ^ 8 % 256 = f₁ in
    let f₂ = ap bytes (omega arith) ∙ e₂ ∙ byte w 16 in
    let two : bytes (at + 2) ≡ w / 2 ^ 16 % 256 = f₂ in
    let f₃ = ap bytes (omega arith) ∙ e₃ ∙ byte w 24 in
    let three : bytes (at + 3) ≡ w / 2 ^ 24 % 256 = f₃ in
    (
      omega (arith, e₀, byte w 0, one, two, three),
      subst (λ n. HasBytes bytes n (hex_bytes ws)) (omega arith) rest,
    )

words-hex_bytes :
    (bytes : ℕ → ℕ) (k : ℕ) (ws : List ℕ)
    → below_word ws ≡ true
    → HasBytes bytes (k * 4) (hex_bytes ws)
    → (i w : ℕ) → get_elem? ws i ≡ some w
    → word_at bytes ((k + i) * 4) ≡ w
words-hex_bytes bytes k [] fits h i w at = cc
words-hex_bytes bytes k (v ∷ ws) fits h zero w at =
    let (small, later) = &&-both (ltb v (2 ^ 32)) (below_word ws) fits in
    let (this, rest) = word_at-hex_bytes bytes (k * 4) v ws (ltb→lt v (2 ^ 32) small) h in
    let here : (k + 0) * 4 ≡ k * 4 = omega arith in ap (word_at bytes) here ∙ this ∙ cc
words-hex_bytes bytes k (v ∷ ws) fits h (suc i) w at =
    let (small, later) = &&-both (ltb v (2 ^ 32)) (below_word ws) fits in
    let (this, rest) = word_at-hex_bytes bytes (k * 4) v ws (ltb→lt v (2 ^ 32) small) h in
    let here : (k + suc i) * 4 ≡ (suc k + i) * 4 = omega arith in
    ap (word_at bytes) here
    ∙ words-hex_bytes bytes (suc k) ws later
        (subst (λ n. HasBytes bytes n (hex_bytes ws)) (omega arith) rest) i w at

pub words_fit : below_word boot_words ≡ true
unfolding word branch_word jal_word
words_fit = refl

pub boot_rom_bytes-words : boot_rom_bytes ≡ ok (hex_bytes boot_words)
unfolding boot_rom_bytes
boot_rom_bytes-words = ap (λ (r : Result (List ℕ)). r >>= λ ws. ok (hex_bytes ws)) boot_rom-words

pub boot_rom_bytes-HasBootRom :
    (board : Board) (image : List ℕ)
    → boot_rom_bytes ≡ ok image
    → HasBytes board.rom 0 image
    → HasBootRom board
boot_rom_bytes-HasBootRom board image built holds i w at =
    let same : image ≡ hex_bytes boot_words = (let e = sym built ∙ boot_rom_bytes-words in cc) in
    let here : i * 4 ≡ (0 + i) * 4 = omega arith in
    ap (word_at board.rom) here
    ∙ words-hex_bytes board.rom 0 boot_words words_fit (subst (HasBytes board.rom 0) same holds) i w
        at
