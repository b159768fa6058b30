-- ===== src/Scripts/Ps2Ascii/Decodes.antt =====
-- The program of tools/build_ps2_ascii.py, started by the stub of tools/build_flash_handoff_stub.py: the
-- characters of the keys that a keyboard sends come out on GPIO_OUT.
use mathlib.Core.List.{flatten}
use agil_a.Common.{
  ℕ, ◌+◌, ◌*◌, ◌^◌, ◌<◌, ◌≡◌, refl, sym, ap, subst, ◌∙◌, arith, true, false, List, [], ◌∷◌, map, ok,
}
use agil_a.Asm.Bytes.Laws.{to_bytes}
use agil_a.Core.Exec.{step}
use agil_a.Core.Runs.{set, Runs, stop, running, Runs-step, Runs-trans}
use agil_a.Chip.Memory.{Board, Psram, Chip, chip_bus, word_at}
use agil_a.Chip.Run.{step-load, HasWords, Runs-nops}
use agil_a.Chip.Image.{HasBytes, HasPages, HasPages-bytes, bounces}
use agil_a.Scripts.Handoff.{handoff_stub}
use agil_a.Scripts.Handoff.Starts.{step-stub}
use agil_a.Scripts.Ps2Reader.Pins.{Clocked, idle}
use agil_a.Scripts.Ps2Reader.Poll.{switch_words, Runs-switch}
use agil_a.Scripts.Ps2Reader.Frame.{value, Bounces, Clocked-append}
use agil_a.Scripts.Ps2Reader.Receive.{
  Frame, line, AreFrames, frame_words, value-below, HasPages-append, Runs-frame,
}
use agil_a.Scripts.Ps2Ascii.{ps2_ascii}
use agil_a.Scripts.Ps2Ascii.Decoder.{Keys, no_keys, decode_byte, push, decode_all}
use agil_a.Scripts.Ps2Ascii.Pages.{
  init_words, process_words, ascii_words, ps2_ascii-words, ascii_pages_fit,
}
use agil_a.Scripts.Ps2Ascii.Byte.{Holds, output, show, Ends-byte}

-- The bytes of frames.
abbrev pub bytes_of : List Frame → List ℕ
bytes_of fs = map (λ f. value f.bits) fs

module _ {D : Type 0} (board : Board) (ram_chips : Psram D) where
  pub ascii_pages :
      (image : List ℕ)
      → ps2_ascii ≡ ok image
      → HasBytes board.flash 0 image
      → HasPages board 0 ascii_words × Bounces board 256
  ascii_pages image built flashed =
      let same : image ≡ flatten (map to_bytes ascii_words) =
        (let e = sym built ∙ ps2_ascii-words in cc) in
      let pages =
        HasPages-bytes board 0 ascii_words ascii_pages_fit
          (subst (HasBytes board.flash 0) same flashed) in
      (
        pages,
        λ n h.
            ap (λ x. word_at board.flash (x * 44 + 40)) (omega arith)
            ∙ bounces board 0 n ascii_words ascii_pages_fit pages h,
      )

  -- The pages that take in a frame, and those that handle its byte.
  halves :
      HasPages board 0 ascii_words → HasPages board 1 frame_words × HasPages board 23 process_words
  halves (_, code) = HasPages-append board ram_chips 1 frame_words process_words code

  -- Page 0, from its second word on.
  pub Runs-init :
      (r : ℕ → ℕ) (m : Chip D) (mode : m.flash_mode ≡ true)
      → HasWords board 0 0 init_words
      → Bounces board 256
      → Runs
          (chip_bus board ram_chips)
          (running 0xB8 r, record m { flash_page = 0 })
          (running 0xB4 (set (set (set (set r 4 0) 5 0) 6 0) 30 1), record m { flash_page = 1 })
  Runs-init r m mode (_, (w1, (w2, (w3, code)))) ends =
      let m' = record m { flash_page = 0 } in
      let r₁ = set r 4 0 in
      let r₂ = set r₁ 5 0 in
      let r₃ = set r₂ 6 0 in
      let (padded, tail) =
        Runs-nops board ram_chips 4 4 0 (switch_words 1) r₃ m' code (mode, refl) (omega arith) in
      Runs-step
        (step-load board ram_chips m mode 0 1 3 0 r w1 (omega arith) (omega arith) (omega arith))
        (Runs-step
          (step-load board ram_chips m mode 0 2 4 0 r₁ w2 (omega arith) (omega arith) (omega arith))
          (Runs-step
            (step-load board ram_chips m mode 0 3 5 0 r₂ w3 (omega arith) (omega arith)
              (omega arith))
            (Runs-trans padded (
              Runs-switch board ram_chips 0 1 r₃ m' tail (ends 1 (omega arith)) (mode, refl)
                (omega arith)))))

  -- From page 1 with an empty scancode, frame after frame.
  pub Runs-keys :
      (fs : List Frame) (k : Keys) (t w : ℕ) (r : ℕ → ℕ) (m : Chip D)
      → HasPages board 0 ascii_words
      → Bounces board 256
      → AreFrames fs
      → m.flash_mode ≡ true
      → Holds r 0 k
      → Clocked board (flatten (map line fs)) t w
      → let end = decode_all k (bytes_of fs) (output m) in
        (r' : ℕ → ℕ) × Runs
          (chip_bus board ram_chips)
          (running 0xB4 r, record m { flash_page = 1; sampled = t })
          (running 0xB4 r', record (show m end.1) { flash_page = 1; sampled = w })
        × Holds r' 0 end.0
  unfolding flatten
  Runs-keys [] k t w r m pages ends are mode holds idle = (r, stop, holds)
  Runs-keys (f ∷ fs) k t w r m pages ends ((eight, below), are) mode (zeroed, b, e) h =
      let byte = value f.bits in
      let (u, this, later) = Clocked-append board (line f) (flatten (map line fs)) t w h in
      let small : byte < 256 = subst (λ n. byte < 2 ^ n) eight (value-below f.bits below) in
      let (r₁, run₁, is, five, six) =
        Runs-frame board ram_chips f t u r m (halves pages).0 (λ n low. ends n (omega arith))
          (eight, below) mode zeroed this in
      let (r₂, run₂, holds) =
        Ends-byte board ram_chips (record m { sampled = u }) mode ends byte k r₁ (halves pages).1
          small (is, five ∙ b, six ∙ e) in
      let m' = show m (push (decode_byte k byte).1 (output m)) in
      let (r₃, run₃, held) =
        Runs-keys fs (decode_byte k byte).0 u w r₂ m' pages ends are mode holds later in
      (r₃, Runs-trans run₁ (Runs-trans run₂ run₃), held)

  -- A chip is at 0xB4 with FLASH_MODE off and FLASH_PAGE at 0, its RAM holds the bytes of the handoff
  -- stub from 0xB4 on, and its flash holds the image that ps2_ascii builds. When the polls of GPIO_IN
  -- see frames clocked in one after another, each with eight data bits, the chip comes to page 1 with
  -- the flags of the decoder behind the bytes of the frames in x5 and x6, an empty scancode in x4,
  -- GPIO_OUT and the values written to it as the decoder gives them from those before (one character
  -- for each byte that is no prefix and stands behind none, and nothing for the others), FLASH_MODE on,
  -- and the rest of the memory map as it was.
  pub ps2_ascii-decodes :
      (stub image : List ℕ) (fs : List Frame) (w : ℕ) (r : ℕ → ℕ) (m : Chip D)
      → handoff_stub ≡ ok stub
      → ps2_ascii ≡ ok image
      → HasBytes m.ram 4 stub
      → HasBytes board.flash 0 image
      → m.flash_mode ≡ false
      → m.flash_page ≡ 0
      → AreFrames fs
      → Clocked board (flatten (map line fs)) m.sampled w
      → let end = decode_all no_keys (bytes_of fs) (output m) in
        (r' : ℕ → ℕ) × Runs
          (chip_bus board ram_chips)
          (running 0xB4 r, m)
          (
            running 0xB4 r',
            record m {
              flash_mode = true;
              flash_page = 1;
              sampled = w;
              gpio_out = end.1.gpio;
              written = end.1.values;
            },
          )
        × Holds r' 0 end.0
  ps2_ascii-decodes stub image fs w r m handed built loaded flashed off first are h =
      let (pages, ends) = ascii_pages image built flashed in
      let m₁ = record m { flash_mode = true } in
      let r₁ = set (set (set (set r 4 0) 5 0) 6 0) 30 1 in
      let (r₂, run, held) =
        Runs-keys fs no_keys m.sampled w r₁ m₁ pages ends are refl (refl, refl, refl) h in
      let turned =
        subst
          (λ n.
            step (chip_bus board ram_chips) (running 0xB4 r, m)
            ≡ (running 0xB8 r, record m₁ { flash_page = n }))
          first (step-stub board ram_chips stub r m handed loaded off) in
      (r₂, Runs-step turned (Runs-trans (Runs-init r m₁ refl pages.0 ends) run), held)
