-- ===== src/Scripts/BootRom/Pair.antt =====
-- The 32 bits that src/mem.v takes from two words of its ROM, `rom_word`, at every byte address of the boot
-- ROM.
use agil_a.Common.{
  ℕ, zero, suc, ◌+◌, ◌*◌, ◌/◌, ◌%◌, ◌^◌, ◌<◌, ◌≤◌, ◌≡◌, ◌⊎◌, refl, sym, ap, subst, ◌∙◌, arith,
  Option, none, some, List, [], ◌∷◌, length, ok, Bool-cases, ◌==◌, ==_iff, ap₂, inl, inr,
}
use agil_a.Asm.Bytes.Laws.{AllBelow}
use agil_a.Chip.Memory.{Board, word_at}
use agil_a.Chip.Image.{HasBytes}
use agil_a.Scripts.BootRom.{boot_rom_bytes, hex_bytes}
use agil_a.Scripts.BootRom.Body.{boot_rom_body}
use agil_a.Scripts.BootRom.Case.{rom_word_at}
use agil_a.Scripts.BootRom.Steps.{boot_words}
use agil_a.Scripts.BootRom.Rom.{byte, boot_rom_bytes-words}
use agil_a.Scripts.BootRom.Files.{rom_word_at-boot_words, rom_word_at-boot_rom_bytes}

-- `rom_pair[(addr[1:0] * 8) +: 32]`
abbrev select_word : ℕ → Option ℕ → Option ℕ → Option ℕ
select_word addr (some w₀) (some w₁) = some ((w₁ * 2 ^ 32 + w₀) / 2 ^ (addr % 4 * 8) % 2 ^ 32)
select_word addr w₀ w₁ = none

-- `rom_word`, with the text between the `case` and the `default` of `rom_word_at`.
abbrev pub rom_word : List ℕ → ℕ → Option ℕ
rom_word text addr =
    select_word addr (rom_word_at text (addr / 4)) (rom_word_at text ((addr / 4 + 1) % 2 ^ 6))

below_four : (r : ℕ) → r < 4 → (r ≡ 0) ⊎ ((r ≡ 1) ⊎ ((r ≡ 2) ⊎ (r ≡ 3)))
below_four r h = ground arith

-- Eight bytes from an address on, as two words.
at_sum : (rom : ℕ → ℕ) (at i j k : ℕ) → i + j ≡ k → rom (at + i + j) ≡ rom (at + k)
at_sum rom at i j k e = ap rom (omega (arith, e))

word_at-sum :
    (rom : ℕ → ℕ) (at i : ℕ)
    → word_at rom (at + i)
      ≡ rom (at + i)
        + rom (at + (i + 1)) * 2 ^ 8
        + rom (at + (i + 2)) * 2 ^ 16
        + rom (at + (i + 3)) * 2 ^ 24
word_at-sum rom at i = omega (
  arith,
  at_sum rom at i 1 (i + 1) refl,
  at_sum rom at i 2 (i + 2) refl,
  at_sum rom at i 3 (i + 3) refl,
)

-- What the part-select of two neighbouring words has is the word at the byte address.
select-word_at :
    (rom : ℕ → ℕ) (at r : ℕ)
    → r < 4
    → ((i : ℕ) → i < 8 → rom (at + i) < 256)
    → (word_at rom (at + 4) * 2 ^ 32 + word_at rom (at + 0)) / 2 ^ (r * 8) % 2 ^ 32
      ≡ word_at rom (at + r)
select-word_at rom at r small bytes =
    let b₀ = bytes 0 (omega arith) in
    let b₁ = bytes 1 (omega arith) in
    let b₂ = bytes 2 (omega arith) in
    let b₃ = bytes 3 (omega arith) in
    let b₄ = bytes 4 (omega arith) in
    let b₅ = bytes 5 (omega arith) in
    let b₆ = bytes 6 (omega arith) in
    let b₇ = bytes 7 (omega arith) in
    let low = word_at-sum rom at 0 in
    let high = word_at-sum rom at 4 in
    elim (below_four r small) [
      | inl e ↦ rw (e, low, high) (omega arith)
      | inr (inl e) ↦ rw (e, low, high, word_at-sum rom at 1) (omega arith)
      | inr (inr (inl e)) ↦ rw (e, low, high, word_at-sum rom at 2) (omega arith)
      | inr (inr (inr e)) ↦ rw (e, low, high, word_at-sum rom at 3) (omega arith)
    ]

hex_bytes-AllBelow : (ws : List ℕ) → AllBelow 256 (hex_bytes ws)
unfolding hex_bytes
hex_bytes-AllBelow [] = tt
hex_bytes-AllBelow (w ∷ ws) = (
  omega (arith, byte w 0),
  (
    omega (arith, byte w 8),
    (omega (arith, byte w 16), (omega (arith, byte w 24), hex_bytes-AllBelow ws)),
  ),
)

HasBytes-below :
    (rom : ℕ → ℕ) (at i : ℕ) (bs : List ℕ)
    → AllBelow 256 bs
    → HasBytes rom at bs
    → i < length bs
    → rom (at + i) < 256
HasBytes-below rom at i [] low h inside = absurd (omega arith)
HasBytes-below rom at zero (b ∷ bs) (small, low) (e, h) inside =
    let here : rom (at + 0) ≡ rom at = ap rom (omega arith) in omega (arith, here, e, small)
HasBytes-below rom at (suc i) (b ∷ bs) (small, low) (e, h) inside =
    let here : rom (at + suc i) ≡ rom (suc at + i) = ap rom (omega arith) in
    omega (arith, here, HasBytes-below rom (suc at) i bs low h (omega arith))

-- The bytes of boot_rom.hex are 176 numbers below 256.
boot_rom_bytes-below :
    (board : Board) (bytes : List ℕ) (i : ℕ)
    → boot_rom_bytes ≡ ok bytes
    → HasBytes board.rom 0 bytes
    → i < 176
    → board.rom i < 256
unfolding hex_bytes
boot_rom_bytes-below board bytes i hex holds inside =
    let same : bytes ≡ hex_bytes boot_words = (let e = sym hex ∙ boot_rom_bytes-words in cc) in
    let size : length (hex_bytes boot_words) ≡ 176 = refl in
    let here : board.rom (0 + i) ≡ board.rom i = ap board.rom (omega arith) in
    omega (
      arith,
      here,
      HasBytes-below board.rom 0 i (hex_bytes boot_words) (hex_bytes-AllBelow boot_words)
          (subst (HasBytes board.rom 0) same holds) (omega (arith, size, inside)),
    )

-- Before the last word, both words of the pair are the ROM's.
rom_word-inner :
    (board : Board) (bytes text : List ℕ) (addr : ℕ)
    → boot_rom_bytes ≡ ok bytes
    → boot_rom_body ≡ ok text
    → HasBytes board.rom 0 bytes
    → addr < 172
    → rom_word text addr ≡ some (word_at board.rom addr)
rom_word-inner board bytes text addr hex body holds inside =
    let q : ℕ = addr / 4 in
    let index : (q + 1) % 2 ^ 6 ≡ q + 1 = omega arith in
    let first = rom_word_at-boot_rom_bytes board bytes text q hex body holds (omega arith) in
    let second = rom_word_at-boot_rom_bytes board bytes text (q + 1) hex body holds (omega arith) in
    let start : q * 4 ≡ q * 4 + 0 = omega arith in
    let next : (q + 1) * 4 ≡ q * 4 + 4 = omega arith in
    let there : q * 4 + addr % 4 ≡ addr = omega arith in
    let low = first ∙ ap (λ at. some (word_at board.rom at)) start in
    let high = ap (rom_word_at text) index ∙ second ∙ ap (λ at. some (word_at board.rom at)) next in
    ap₂ (select_word addr) low high
    ∙ ap some (
        select-word_at board.rom (q * 4) (addr % 4) (omega arith) (λ i h.
          boot_rom_bytes-below board bytes (q * 4 + i) hex holds (omega (arith, inside, h))))
    ∙ ap (λ at. some (word_at board.rom at)) there

-- The last word is aligned, so that the default behind it does not matter.
rom_word-last :
    (board : Board) (bytes text : List ℕ)
    → boot_rom_bytes ≡ ok bytes
    → boot_rom_body ≡ ok text
    → HasBytes board.rom 0 bytes
    → rom_word text 172 ≡ some (word_at board.rom 172)
rom_word-last board bytes text hex body holds =
    let below = λ (i : ℕ) (h : i < 176). boot_rom_bytes-below board bytes i hex holds h in
    let whole : (0 * 2 ^ 32 + word_at board.rom 172) / 2 ^ 0 % 2 ^ 32 ≡ word_at board.rom 172 =
      omega (
        arith,
        below 172 (omega arith),
        below 173 (omega arith),
        below 174 (omega arith),
        below 175 (omega arith),
      ) in
    ap₂ (select_word 172)
      (rom_word_at-boot_rom_bytes board bytes text 43 hex body holds (omega arith))
      (rom_word_at-boot_words text 44 body)
    ∙ ap some whole

-- A ROM that holds the bytes of boot_rom.hex from address 0 on: at every byte address of its 176, but
-- the last three, its four bytes are what the part-select of src/mem.v takes from two words of the
-- case statement that has the lines of boot_rom_body.vh.
pub rom_word-boot_rom_bytes :
    (board : Board) (bytes text : List ℕ) (addr : ℕ)
    → boot_rom_bytes ≡ ok bytes
    → boot_rom_body ≡ ok text
    → HasBytes board.rom 0 bytes
    → addr + 4 ≤ 176
    → rom_word text addr ≡ some (word_at board.rom addr)
rom_word-boot_rom_bytes board bytes text addr hex body holds inside =
    elim (Bool-cases (addr == 172)) [
      | inl e ↦
          subst (λ a. rom_word text a ≡ some (word_at board.rom a)) (sym ((==_iff addr 172).0 e))
            (rom_word-last board bytes text hex body holds)
      | inr e ↦ rom_word-inner board bytes text addr hex body holds (
          let other : ¬ (addr ≡ 172) = (λ z. absurd (cc (e, (==_iff addr 172).1 z))) in
          omega (arith, other, inside))
    ]
