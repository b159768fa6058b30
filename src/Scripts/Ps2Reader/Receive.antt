-- ===== src/Scripts/Ps2Reader/Receive.antt =====
-- The program of tools/build_ps2_reader.py on the chip: one frame after another.
use mathlib.Core.List.{flatten}
use native.Mathlib.Nat.{pow-suc}
use agil_a.Common.{
  ℕ, suc, ◌+◌, ◌%◌, ◌^◌, ◌<◌, ◌≡◌, refl, sym, ap, subst, ◌∙◌, arith, true, List, [], ◌∷◌, ◌++◌,
  length, map, replicate, ok,
}
use agil_a.Common.Int.{pos, mask}
use agil_a.Asm.Encode.{word, addi, sw, jal_word, branch_word}
use agil_a.Asm.Bytes.Laws.{AllBelow, to_bytes}
use agil_a.Core.Exec.{step, reg, set_reg}
use agil_a.Core.Meaning.{perform}
use agil_a.Core.Runs.{set, Runs, running, Runs-step, Runs-trans}
use agil_a.Paged.Layout.{nop}
use agil_a.Chip.Memory.{Board, Psram, Chip, write, chip_bus}
use agil_a.Chip.Run.{HasWords, step-instr, Runs-nops}
use agil_a.Chip.Image.{HasPages, are_pages}
use agil_a.Scripts.Ps2Reader.{ps2_reader}
use agil_a.Scripts.Ps2Reader.Pins.{Clocked}
use agil_a.Scripts.Ps2Reader.Poll.{poll_words, switch_words, Runs-switch}
use agil_a.Scripts.Ps2Reader.Frame.{
  value, bit_words, Bounces, Clocked-append, Runs-unread, Runs-bits,
}

-- A frame of a PS/2 keyboard.
pub record Frame : Type 0 where
  pub start : ℕ
  pub bits : List ℕ
  pub parity : ℕ
  pub end : ℕ

abbrev pub line : Frame → List ℕ
line f = f.start ∷ (f.bits ++ f.parity ∷ f.end ∷ [])

abbrev pub IsFrame : Frame → Type 0
IsFrame f = (length f.bits ≡ 8) × AllBelow 2 f.bits

abbrev pub AreFrames : List Frame → Type 0
AreFrames [] = Unit
AreFrames (f ∷ fs) = IsFrame f × AreFrames fs

-- GPIO_OUT after the frames, and the values written to it, the last in front.
abbrev pub last_byte : ℕ → List Frame → ℕ
last_byte out [] = out
last_byte out (f ∷ fs) = last_byte (value f.bits) fs

abbrev pub all_bytes : List Frame → List ℕ → List ℕ
all_bytes [] ws = ws
all_bytes (f ∷ fs) ws = all_bytes fs (value f.bits ∷ ws)

-- The pages that follow the data bits, and the whole image.
abbrev pub tail_words : List (List ℕ)
tail_words = poll_words 0 20 ∷ poll_words 1 21 ∷ poll_words 0 22 ∷ poll_words 1 23 ∷ []

abbrev start_words : List ℕ
start_words = nop ∷ word (addi 4 0 (pos 0)) ∷ (replicate 6 nop ++ switch_words 1)

abbrev pub result_words : List ℕ
result_words =
    word (sw 4 0 (pos 0xF0)) ∷ word (addi 4 0 (pos 0)) ∷ (replicate 6 nop ++ switch_words 1)

-- The pages 1 to 22.
abbrev pub frame_words : List (List ℕ)
frame_words = poll_words 0 2 ∷ poll_words 1 3 ∷ (bit_words 8 0 3 ++ tail_words)

abbrev pub reader_words : List (List ℕ)
reader_words = start_words ∷ (frame_words ++ result_words ∷ [])

-- The image is these pages.
pub ps2_reader-words : ps2_reader ≡ ok (flatten (map to_bytes reader_words))
unfolding ps2_reader word flatten
ps2_reader-words = refl

pub pages_fit : are_pages reader_words ≡ true
unfolding word jal_word branch_word
pages_fit = refl

-- Eight bits make a byte.
pub value-below : (bits : List ℕ) → AllBelow 2 bits → value bits < 2 ^ length bits
value-below [] below = omega arith
value-below (b ∷ bits) (two, below) = omega (arith, pow-suc 2 (length bits), value-below bits below)

module _ {D : Type 0} (board : Board) (ram_chips : Psram D) where
  pub HasPages-append :
      (k : ℕ) (xs ys : List (List ℕ))
      → HasPages board k (xs ++ ys)
      → HasPages board k xs × HasPages board (k + length xs) ys
  HasPages-append k [] ys h = (tt, subst (λ n. HasPages board n ys) (omega arith) h)
  HasPages-append k (x ∷ xs) ys (this, h) =
      let (first, rest) = HasPages-append (suc k) xs ys h in
      ((this, first), subst (λ n. HasPages board n ys) (omega arith) rest)

  -- The pages 1 to 22 take in one frame.
  pub Runs-frame :
      (f : Frame) (t w : ℕ) (r : ℕ → ℕ) (m : Chip D)
      → HasPages board 1 frame_words
      → Bounces board 24
      → IsFrame f
      → m.flash_mode ≡ true
      → r 4 ≡ 0
      → Clocked board (line f) t w
      → (r' : ℕ → ℕ) × Runs
          (chip_bus board ram_chips)
          (running 0xB4 r, record m { flash_page = 1; sampled = t })
          (running 0xB4 r', record m { flash_page = 23; sampled = w })
        × (r' 4 ≡ value f.bits)
        × (r' 5 ≡ r 5)
        × (r' 6 ≡ r 6)
  Runs-frame f t w r m (low, (high, code)) ends (eight, below) mode zeroed h =
      let bits_code : HasPages board 3 (bit_words (length f.bits) 0 3)
          × HasPages board 19 tail_words =
        (let (first, rest) = HasPages-append 3 (bit_words 8 0 3) tail_words code in
          (subst (λ n. HasPages board 3 (bit_words n 0 3)) (sym eight) first, rest)) in
      let (u, started, following) =
        Clocked-append board (f.start ∷ []) (f.bits ++ f.parity ∷ f.end ∷ []) t w h in
      let (v, data_bits, last) =
        Clocked-append board f.bits (f.parity ∷ f.end ∷ []) u w following in
      let (x, parity_bit, end_bit) = Clocked-append board (f.parity ∷ []) (f.end ∷ []) v w last in
      let (bits_ok, (p19, (p20, (p21, (p22, _))))) = bits_code in
      let (r₁, run₁, a4, a5, a6) =
        Runs-unread board ram_chips f.start 1 t u r (record m { flash_page = 1; sampled = t }) low
          high ends (omega arith) (mode, refl) refl started in
      let (r₂, run₂, b4, b5, b6) =
        Runs-bits board ram_chips f.bits 0 3 19 u v r₁ m bits_ok ends (omega arith) (omega arith)
          (omega arith) mode below (omega arith) data_bits in
      let (r₃, run₃, c4, c5, c6) =
        Runs-unread board ram_chips f.parity 19 v x r₂ (record m { flash_page = 19; sampled = v })
          p19 p20 ends (omega arith) (mode, refl) refl parity_bit in
      let (r₄, run₄, d4, d5, d6) =
        Runs-unread board ram_chips f.end 21 x w r₃ (record m { flash_page = 21; sampled = x }) p21
          p22 ends (omega arith) (mode, refl) refl end_bit in
      (
        r₄,
        Runs-trans run₁ (Runs-trans run₂ (Runs-trans run₃ run₄)),
        omega (arith, a4, b4, c4, d4, zeroed),
        d5 ∙ c5 ∙ b5 ∙ a5,
        d6 ∙ c6 ∙ b6 ∙ a6,
      )

  -- The last page puts the byte on GPIO_OUT, and goes back to page 1 with an empty scancode.
  pub Runs-result :
      (w byte : ℕ) (r : ℕ → ℕ) (m : Chip D)
      → HasWords board 23 0 result_words
      → Bounces board 24
      → m.flash_mode ≡ true
      → r 4 ≡ byte
      → byte < 256
      → Runs
          (chip_bus board ram_chips)
          (running 0xB4 r, record m { flash_page = 23; sampled = w })
          (
            running 0xB4 (set (set r 4 0) 30 1),
            record m { flash_page = 1; sampled = w; gpio_out = byte; written = byte ∷ m.written },
          )
  unfolding perform write set_reg reg mask
  Runs-result w byte r m (stores, (clears, code)) ends mode is small =
      let m₁ = record m { flash_page = 23; sampled = w } in
      let m₂ = record m₁ { gpio_out = byte; written = byte ∷ m.written } in
      let low : r 4 % 2 ^ 8 ≡ byte = omega (arith, is) in
      let first : step (chip_bus board ram_chips) (running 0xB4 r, m₁) ≡ (running 0xB8 r, m₂) =
        step-instr board ram_chips 23 0 (sw 4 0 (pos 0xF0)) r m₁ stores (mode, refl) (omega arith)
          (omega arith, omega arith, (omega arith, omega arith))
        ∙ ap (λ (v : ℕ). (running 0xB8 r, record m₁ { gpio_out = v; written = v ∷ m.written }))
            low in
      let second : step (chip_bus board ram_chips) (running 0xB8 r, m₂)
          ≡ (running 0xBC (set r 4 0), m₂) =
        step-instr board ram_chips 23 1 (addi 4 0 (pos 0)) r m₂ clears (mode, refl) (omega arith)
          (omega arith, omega arith, (omega arith, omega arith)) in
      let (padded, tail) =
        Runs-nops board ram_chips 6 2 23 (switch_words 1) (set r 4 0) m₂ code (mode, refl)
          (omega arith) in
      Runs-step first (
        Runs-step second (
          Runs-trans padded (
            Runs-switch board ram_chips 23 1 (set r 4 0) m₂ tail (ends 1 (omega arith)) (mode, refl)
              (omega arith))))

  -- Page 0, from its second word on.
  pub Runs-start :
      (r : ℕ → ℕ) (m : Chip D)
      → HasWords board 0 0 start_words
      → Bounces board 24
      → m.flash_mode ≡ true
      → Runs
          (chip_bus board ram_chips)
          (running 0xB8 r, record m { flash_page = 0 })
          (running 0xB4 (set (set r 4 0) 30 1), record m { flash_page = 1 })
  unfolding perform set_reg reg mask
  Runs-start r m (_, (clears, code)) ends mode =
      let m₁ = record m { flash_page = 0 } in
      let first : step (chip_bus board ram_chips) (running 0xB8 r, m₁)
          ≡ (running 0xBC (set r 4 0), m₁) =
        step-instr board ram_chips 0 1 (addi 4 0 (pos 0)) r m₁ clears (mode, refl) (omega arith)
          (omega arith, omega arith, (omega arith, omega arith)) in
      let (padded, tail) =
        Runs-nops board ram_chips 6 2 0 (switch_words 1) (set r 4 0) m₁ code (mode, refl)
          (omega arith) in
      Runs-step first (
        Runs-trans padded (
          Runs-switch board ram_chips 0 1 (set r 4 0) m₁ tail (ends 1 (omega arith)) (mode, refl)
            (omega arith)))
