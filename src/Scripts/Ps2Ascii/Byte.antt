-- ===== src/Scripts/Ps2Ascii/Byte.antt =====
-- What the pages from PROCESS_BP on of tools/build_ps2_ascii.py do to one byte, on the chip.
use agil_a.Common.{
  ℕ, zero, suc, ◌+◌, ◌<◌, ◌≡◌, refl, sym, ap, subst, ◌∙◌, arith, Bool, true, false, Option, none,
  some, ◌==◌, ==_iff, Bool-cases, inl, inr, if◌then◌else◌, ltb, ltb→lt,
}
use agil_a.Core.Runs.{set, Runs, running, Runs-trans}
use agil_a.Chip.Memory.{Board, Psram, Chip, chip_bus}
use agil_a.Chip.Run.{HasWords}
use agil_a.Chip.Image.{HasPages}
use agil_a.Scripts.Ps2Reader.Frame.{Bounces}
use agil_a.Scripts.Ps2Ascii.{ascii_of, get_or_zero}
use agil_a.Scripts.Ps2Ascii.Decoder.{
  Keys, no_keys, decode_no_break, decode_byte, Output, push, ascii_of-below, ascii_of-none,
}
use agil_a.Scripts.Ps2Ascii.Pages.{emit_words, entry_words, table_words, process_words}
use agil_a.Scripts.Ps2Ascii.Process.{
  Moves, bp_drops, bp_passes, prefix_sets, prefix_passes, extcheck_drops, extcheck_passes,
}
use agil_a.Scripts.Ps2Ascii.Emit.{dispatch_in, dispatch_out, entry_gives, emit_writes}

abbrev pub flag : Bool → ℕ
flag b = if b then 1 else 0

-- The registers hold a byte and the flags.
abbrev pub Holds : (ℕ → ℕ) → ℕ → Keys → Type 0
Holds r byte k = (r 4 ≡ byte) × (r 5 ≡ flag k.broken) × (r 6 ≡ flag k.extended)

-- The output of a chip, and a chip with another.
abbrev pub output : {D : Type 0} → Chip D → Output
output m = record { gpio = m.gpio_out; values = m.written }

abbrev pub show : {D : Type 0} → Chip D → Output → Chip D
show m o = record m { gpio_out = o.gpio; written = o.values }

module _ {D : Type 0} (board : Board) (ram_chips : Psram D) where
  -- From `page`, the chip comes to page 1 with the flags and the character of `x`.
  abbrev pub Ends : ℕ → (ℕ → ℕ) → Chip D → Keys × Option ℕ → Type 0
  Ends page r m x =
      (r' : ℕ → ℕ) × Runs (chip_bus board ram_chips)
        (running 0xB4 r, record m { flash_page = page })
        (running 0xB4 r', record (show m (push x.1 (output m))) { flash_page = 1 })
      × Holds r' 0 x.0

  Ends-split :
      (c : Bool) (page : ℕ) (r : ℕ → ℕ) (m : Chip D) (x y : Keys × Option ℕ)
      → (c ≡ true → Ends page r m x)
      → (c ≡ false → Ends page r m y)
      → Ends page r m (if c then x else y)
  Ends-split true page r m x y this other = this refl
  Ends-split false page r m x y this other = other refl

  table_at :
      (left s k i k' s' : ℕ)
      → HasPages board k (table_words left s)
      → i < left
      → k' ≡ k + i
      → s' ≡ s + i
      → HasWords board k' 0 (entry_words s')
  table_at zero s k i k' s' pages h at is = absurd (omega arith)
  table_at (suc left) s k zero k' s' (this, pages) h at is =
      subst (λ x. HasWords board x 0 (entry_words s')) (omega (arith, at))
        (subst (λ x. HasWords board k 0 (entry_words x)) (omega (arith, is)) this)
  table_at (suc left) s k (suc i) k' s' (this, pages) h at is =
      table_at left (suc s) (suc k) i k' s' pages (omega arith) (omega (arith, at))
        (omega (arith, is))

  module _ (m : Chip D) (mode : m.flash_mode ≡ true) (ends : Bounces board 256) where
    -- The page of a scancode, then EMIT_PAGE.
    Ends-entry :
        (s a : ℕ) (k : Keys) (r : ℕ → ℕ)
        → HasWords board 28 0 emit_words
        → HasWords board (29 + s) 0 (entry_words s)
        → ascii_of s ≡ a
        → (r 5 ≡ flag k.broken) × (r 6 ≡ flag k.extended)
        → Ends (29 + s) r m (k, some a)
    Ends-entry s a k r emits entry is (b, e) =
        let r₁ = set (set r 8 (ascii_of s)) 30 28 in
        let small : a < 128 = subst (λ n. n < 128) is (ascii_of-below s) in
        (
          set (set r₁ 4 0) 30 1,
          Runs-trans (entry_gives board ram_chips m mode ends (29 + s) s r entry)
              (emit_writes board ram_chips m mode ends a r₁ emits is small),
          (refl, b, e),
        )

    -- A move to another page comes first.
    Ends-after :
        (page page' : ℕ) (r r' : ℕ → ℕ) (x : Keys × Option ℕ)
        → Moves board ram_chips m mode page r page' r'
        → Ends page' r' m x
        → Ends page r m x
    Ends-after page page' r r' x move (r'', run, holds) = (r'', Runs-trans move run, holds)

    -- From each page on, the last one first.
    Ends-dispatch :
        (byte : ℕ) (k : Keys) (r : ℕ → ℕ)
        → HasPages board 23 process_words
        → byte < 256
        → Holds r byte k
        → Ends 27 r m (k, some (ascii_of byte))
    unfolding ascii_of get_or_zero
    Ends-dispatch byte k r (_, (_, (_, (_, (dispatch, (emits, table)))))) small (is, b, e) =
        let entry =
          λ (s : ℕ) (h : s < 227). table_at 227 0 29 s (29 + s) s table h refl (omega arith) in
        elim (Bool-cases (ltb byte 227)) [
          | inl low ↦
              let below = ltb→lt byte 227 low in
              let x30 = 29 + byte in
              Ends-after 27 x30 r (set (set (set r 7 226) 7 29) 30 x30) (k, some (ascii_of byte))
                (dispatch_in board ram_chips m mode ends byte r dispatch is below)
                (Ends-entry byte (ascii_of byte) k (set (set (set r 7 226) 7 29) 30 x30) emits
                  (entry byte below) refl (b, e))
          | inr high ↦
              let above : 226 < byte = ground arith in
              Ends-after 27 29 r (set (set r 7 226) 30 29) (k, some (ascii_of byte))
                (dispatch_out board ram_chips m mode ends byte r dispatch is above small)
                (Ends-entry 0 (ascii_of byte) k (set (set r 7 226) 30 29) emits
                  (entry 0 (omega arith)) (sym (ascii_of-none byte above)) (b, e))
        ]

    Ends-extcheck :
        (byte : ℕ) (k : Keys) (r : ℕ → ℕ)
        → HasPages board 23 process_words
        → byte < 256
        → Holds r byte k
        → Ends 26 r m (
            if k.extended then (record k { extended = false }, none) else (k, some (ascii_of byte)))
    Ends-extcheck byte k r pages small (is, b, e) =
        let words = pages.1.1.1.0 in
        Ends-split k.extended 26 r m (record k { extended = false }, none) (k, some (ascii_of byte))
          (λ pending. (
            set (set (set r 6 0) 4 0) 30 1,
            extcheck_drops board ram_chips m mode ends r words (e ∙ ap flag pending),
            (refl, b, refl),
          ))
          (λ clear.
            Ends-after 26 27 r (set r 30 27) (k, some (ascii_of byte))
              (extcheck_passes board ram_chips m mode ends r words (e ∙ ap flag clear))
              (Ends-dispatch byte k (set r 30 27) pages small (is, b, e)))

    Ends-e0 :
        (byte : ℕ) (k : Keys) (r : ℕ → ℕ)
        → HasPages board 23 process_words
        → byte < 256
        → Holds r byte k
        → Ends 25 r m (
            if byte == 0xE0
            then (record k { extended = true }, none)
            else if k.extended
            then (record k { extended = false }, none)
            else (k, some (ascii_of byte)))
    Ends-e0 byte k r pages small (is, b, e) =
        let words = pages.1.1.0 in
        Ends-split (byte == 0xE0) 25 r m (record k { extended = true }, none)
          (if k.extended then (record k { extended = false }, none) else (k, some (ascii_of byte)))
          (λ same. (
            set (set (set (set r 7 0xE0) 6 1) 4 0) 30 1,
            prefix_sets board ram_chips m mode ends 25 0xE0 5 26 r words (omega arith) (omega arith)
                (is ∙ (==_iff byte 0xE0).0 same),
            (refl, b, refl),
          ))
          (λ other.
            Ends-after 25 26 r (set (set r 7 0xE0) 30 26)
              (if k.extended
                then (record k { extended = false }, none)
                else (k, some (ascii_of byte)))
              (prefix_passes board ram_chips m mode ends 25 0xE0 6 26 r words (omega arith)
                (omega arith) (ap (λ n. n == 0xE0) is ∙ other))
              (Ends-extcheck byte k (set (set r 7 0xE0) 30 26) pages small (is, b, e)))

    Ends-f0 :
        (byte : ℕ) (k : Keys) (r : ℕ → ℕ)
        → HasPages board 23 process_words
        → byte < 256
        → Holds r byte k
        → Ends 24 r m (decode_no_break k byte)
    Ends-f0 byte k r pages small (is, b, e) =
        let words = pages.1.0 in
        let later =
          if byte == 0xE0
          then (record k { extended = true }, none)
          else if k.extended
          then (record k { extended = false }, none)
          else (k, some (ascii_of byte)) in
        Ends-split (byte == 0xF0) 24 r m (record k { broken = true }, none) later
          (λ same. (
            set (set (set (set r 7 0xF0) 5 1) 4 0) 30 1,
            prefix_sets board ram_chips m mode ends 24 0xF0 4 25 r words (omega arith) (omega arith)
                (is ∙ (==_iff byte 0xF0).0 same),
            (refl, refl, e),
          ))
          (λ other.
            Ends-after 24 25 r (set (set r 7 0xF0) 30 25) later
              (prefix_passes board ram_chips m mode ends 24 0xF0 5 25 r words (omega arith)
                (omega arith) (ap (λ n. n == 0xF0) is ∙ other))
              (Ends-e0 byte k (set (set r 7 0xF0) 30 25) pages small (is, b, e)))

    -- One byte goes through the pages as the decoder says.
    pub Ends-byte :
        (byte : ℕ) (k : Keys) (r : ℕ → ℕ)
        → HasPages board 23 process_words
        → byte < 256
        → Holds r byte k
        → Ends 23 r m (decode_byte k byte)
    Ends-byte byte k r pages small (is, b, e) =
        let words = pages.0 in
        Ends-split k.broken 23 r m (no_keys, none) (decode_no_break k byte)
          (λ pending. (
            set (set (set (set r 5 0) 6 0) 4 0) 30 1,
            bp_drops board ram_chips m mode ends r words (b ∙ ap flag pending),
            (refl, refl, refl),
          ))
          (λ clear.
            Ends-after 23 24 r (set r 30 24) (decode_no_break k byte)
              (bp_passes board ram_chips m mode ends r words (b ∙ ap flag clear))
              (Ends-f0 byte k (set r 30 24) pages small (is, b, e)))
