-- ===== src/Scripts/Ps2Reader/Frame.antt =====
-- The pages of tools/build_ps2_reader.py that receive a frame, run on the chip: a start bit, eight
-- data bits with the lowest first, a parity bit and a stop bit.
use native.Mathlib.Nat.{pow-suc}
use agil_a.Common.{
  ℕ, zero, suc, ◌+◌, ◌*◌, ◌%◌, ◌^◌, ◌<◌, ◌≡◌, refl, ap, subst, ◌∙◌, arith, List, [], ◌∷◌, ◌++◌,
  length, true,
}
use agil_a.Asm.Bytes.Laws.{AllBelow}
use agil_a.Core.Runs.{Runs, stop, running, Runs-trans}
use agil_a.Paged.Layout.{trampoline}
use agil_a.Chip.Memory.{Board, Psram, Chip, chip_bus, word_at}
use agil_a.Chip.Run.{HasWords, OnPage}
use agil_a.Chip.Image.{HasPages}
use agil_a.Scripts.Ps2Reader.Pins.{Clocked, idle, bit}
use agil_a.Scripts.Ps2Reader.Poll.{poll_words, Runs-poll}
use agil_a.Scripts.Ps2Reader.Sample.{sample_words, Runs-sampled}

-- The number that bits stand for, the lowest first.
abbrev pub value : List ℕ → ℕ
value [] = 0
value (b ∷ bs) = b + 2 * value bs

-- The two pages of each data bit.
abbrev pub bit_words : ℕ → ℕ → ℕ → List (List ℕ)
bit_words zero i page = []
bit_words (suc left) i page =
    sample_words (2 ^ i) (suc page)
    ∷ poll_words 1 (suc (suc page))
    ∷ bit_words left (suc i) (suc (suc page))

power : (i : ℕ) → i < 8 → (2 ^ i < 2048) × (2 ^ i % 2 ^ i ≡ 0)
power zero h = (omega arith, refl)
power (suc zero) h = (omega arith, refl)
power (suc (suc zero)) h = (omega arith, refl)
power (suc (suc (suc zero))) h = (omega arith, refl)
power (suc (suc (suc (suc zero)))) h = (omega arith, refl)
power (suc (suc (suc (suc (suc zero))))) h = (omega arith, refl)
power (suc (suc (suc (suc (suc (suc zero)))))) h = (omega arith, refl)
power (suc (suc (suc (suc (suc (suc (suc zero))))))) h = (omega arith, refl)
power (suc (suc (suc (suc (suc (suc (suc (suc i)))))))) h = absurd (omega arith)

pub Clocked-append :
    (board : Board) (xs ys : List ℕ) (t w : ℕ)
    → Clocked board (xs ++ ys) t w
    → (u : ℕ) × Clocked board xs t u × Clocked board ys u w
Clocked-append board [] ys t w h = (t, idle, h)
Clocked-append board (x ∷ xs) ys t w (bit low high rest) =
    let (u, first, second) = Clocked-append board xs ys _ w rest in (u, bit low high first, second)

-- A bit joined at place `i` stays below place `i + 1`.
carry : (b i x y : ℕ) → b < 2 → x < 2 ^ i → y ≡ x + b * 2 ^ i → y < 2 ^ suc i
carry zero i x y two low is = omega (arith, pow-suc 2 i)
carry (suc zero) i x y two low is = omega (arith, pow-suc 2 i)
carry (suc (suc b)) i x y two low is = absurd (omega arith)

place : (x b i v : ℕ) → x + b * 2 ^ i + 2 ^ suc i * v ≡ x + 2 ^ i * (b + 2 * v)
place x b i v = ap (λ n. x + b * 2 ^ i + n * v) (pow-suc 2 i) ∙ omega arith

-- The trampolines of the pages below `last`.
abbrev pub Bounces : Board → ℕ → Type 0
Bounces board last = (n : ℕ) → n < last → word_at board.flash (n * 44 + 40) ≡ trampoline 44

module _ {D : Type 0} (board : Board) (ram_chips : Psram D) where
  -- A bit that is not kept: CLOCK is awaited low, then high.
  pub Runs-unread :
      (b page t w : ℕ) (r : ℕ → ℕ) (m : Chip D)
      → HasWords board page 0 (poll_words 0 (page + 1))
      → HasWords board (page + 1) 0 (poll_words 1 (page + 2))
      → Bounces board 24
      → page + 2 < 24
      → OnPage page m
      → m.sampled ≡ t
      → Clocked board (b ∷ []) t w
      → (r' : ℕ → ℕ) × Runs
          (chip_bus board ram_chips)
          (running 0xB4 r, m)
          (running 0xB4 r', record m { flash_page = page + 2; sampled = w })
        × (r' 4 ≡ r 4)
        × (r' 5 ≡ r 5)
        × (r' 6 ≡ r 6)
  Runs-unread b page t w r m first second ends small (mode, here) at
        (bit {c = c} {u = u} low high idle) =
      let (r₁, run₁, (a4, a5, a6)) =
        Runs-poll board ram_chips 0 b page (page + 1) t u r m first (ends (page + 1) (omega arith))
          (omega arith) (mode, here) (omega arith) at low in
      let (r₂, run₂, (b4, b5, b6)) =
        Runs-poll board ram_chips 1 c (page + 1) (page + 2) u w r₁
          (record m { flash_page = page + 1; sampled = u }) second (ends (page + 2) small)
          (omega arith) (mode, refl) (omega arith) refl high in
      (r₂, Runs-trans run₁ run₂, b4 ∙ a4, b5 ∙ a5, b6 ∙ a6)

  -- The data bits from the place `i` on.
  pub Runs-bits :
      (bits : List ℕ) (i page last t w : ℕ) (r : ℕ → ℕ) (m : Chip D)
      → HasPages board page (bit_words (length bits) i page)
      → Bounces board 24
      → last ≡ page + 2 * length bits
      → last < 24
      → i + length bits < 9
      → m.flash_mode ≡ true
      → AllBelow 2 bits
      → r 4 < 2 ^ i
      → Clocked board bits t w
      → (r' : ℕ → ℕ) × Runs
          (chip_bus board ram_chips)
          (running 0xB4 r, record m { flash_page = page; sampled = t })
          (running 0xB4 r', record m { flash_page = last; sampled = w })
        × (r' 4 ≡ r 4 + 2 ^ i * value bits)
        × (r' 5 ≡ r 5)
        × (r' 6 ≡ r 6)
  Runs-bits [] i page last t w r m pages ends at small short mode below low idle =
      let same : page ≡ last = omega arith in
      (
        r,
        subst
            (λ n.
              Runs (chip_bus board ram_chips)
                (running 0xB4 r, record m { flash_page = page; sampled = t })
                (running 0xB4 r, record m { flash_page = n; sampled = t }))
            same stop,
        omega arith,
        refl,
        refl,
      )
  Runs-bits (b ∷ bits) i page last t w r m (first, (second, pages)) ends at small short mode
        (two, below) low (bit {c = c} {u = u} {v = v} down up rest) =
      let (little, whole) = power i (omega arith) in
      let (r₁, run₁, a4, a5, a6) =
        Runs-sampled board ram_chips b i page (suc page) t u r
          (record m { flash_page = page; sampled = t }) first (ends (suc page) (omega arith))
          (omega arith) (mode, refl) refl down two low little whole in
      let (r₂, run₂, (b4, b5, b6)) =
        Runs-poll board ram_chips 1 c (suc page) (suc (suc page)) u v r₁
          (record m { flash_page = suc page; sampled = u }) second
          (ends (suc (suc page)) (omega arith)) (omega arith) (mode, refl) (omega arith) refl up in
      let (r₃, run₃, c4, c5, c6) =
        Runs-bits bits (suc i) (suc (suc page)) last v w r₂ m pages ends (omega arith) small
          (omega arith) mode below (carry b i (r 4) (r₂ 4) two low (b4 ∙ a4)) rest in
      (
        r₃,
        Runs-trans run₁ (Runs-trans run₂ run₃),
        c4 ∙ ap (λ x. x + 2 ^ suc i * value bits) (b4 ∙ a4) ∙ place (r 4) b i (value bits),
        c5 ∙ b5 ∙ a5,
        c6 ∙ b6 ∙ a6,
      )
