-- ===== src/Scripts/Ps2Reader/Loop.antt =====
-- The program of tools/build_ps2_reader.py, started by the stub of tools/build_flash_handoff_stub.py:
-- the bytes that a keyboard sends come out on GPIO_OUT.
use mathlib.Core.List.{flatten}
use agil_a.Common.{
  ℕ, ◌+◌, ◌*◌, ◌^◌, ◌<◌, ◌≡◌, refl, sym, ap, subst, ◌∙◌, arith, true, false, List, [], ◌∷◌, map, ok,
}
use agil_a.Asm.Bytes.Laws.{to_bytes}
use agil_a.Core.Exec.{step}
use agil_a.Core.Runs.{set, Runs, stop, running, Runs-step, Runs-trans}
use agil_a.Chip.Memory.{Board, Psram, Chip, chip_bus, word_at}
use agil_a.Chip.Run.{HasWords}
use agil_a.Chip.Image.{HasBytes, HasPages, HasPages-bytes, bounces}
use agil_a.Scripts.Handoff.{handoff_stub}
use agil_a.Scripts.Handoff.Starts.{step-stub}
use agil_a.Scripts.Ps2Reader.{ps2_reader}
use agil_a.Scripts.Ps2Reader.Pins.{Clocked, idle}
use agil_a.Scripts.Ps2Reader.Frame.{value, Bounces, Clocked-append}
use agil_a.Scripts.Ps2Reader.Receive.{
  Frame, line, AreFrames, last_byte, all_bytes, frame_words, result_words, reader_words,
  ps2_reader-words, pages_fit, value-below, HasPages-append, Runs-frame, Runs-result, Runs-start,
}

module _ {D : Type 0} (board : Board) (ram_chips : Psram D) where
  reader_pages :
      (image : List ℕ)
      → ps2_reader ≡ ok image
      → HasBytes board.flash 0 image
      → HasPages board 0 reader_words × Bounces board 24
  reader_pages image built flashed =
      let same : image ≡ flatten (map to_bytes reader_words) =
        (let e = sym built ∙ ps2_reader-words in cc) in
      let pages =
        HasPages-bytes board 0 reader_words pages_fit
          (subst (HasBytes board.flash 0) same flashed) in
      (
        pages,
        λ n h.
            ap (λ x. word_at board.flash (x * 44 + 40)) (omega arith)
            ∙ bounces board 0 n reader_words pages_fit pages h,
      )

  -- The pages of a frame, and the page of the result.
  parts :
      HasPages board 0 reader_words
      → HasPages board 1 frame_words × HasWords board 23 0 result_words
  parts (_, code) =
      let (frame, (result, _)) =
        HasPages-append board ram_chips 1 frame_words (result_words ∷ []) code in
      (frame, result)

  -- From page 1 with an empty scancode, frame after frame.
  Runs-frames :
      (fs : List Frame) (t w : ℕ) (r : ℕ → ℕ) (m : Chip D)
      → HasPages board 0 reader_words
      → Bounces board 24
      → AreFrames fs
      → m.flash_mode ≡ true
      → r 4 ≡ 0
      → Clocked board (flatten (map line fs)) t w
      → (r' : ℕ → ℕ) × Runs
          (chip_bus board ram_chips)
          (running 0xB4 r, record m { flash_page = 1; sampled = t })
          (
            running 0xB4 r',
            record m {
              flash_page = 1;
              sampled = w;
              gpio_out = last_byte m.gpio_out fs;
              written = all_bytes fs m.written;
            },
          )
  unfolding flatten
  Runs-frames [] t w r m pages ends are mode zeroed idle = (r, stop)
  Runs-frames (f ∷ fs) t w r m pages ends ((eight, below), are) mode zeroed h =
      let byte = value f.bits in
      let m' = record m { gpio_out = byte; written = byte ∷ m.written } in
      let (u, this, later) = Clocked-append board (line f) (flatten (map line fs)) t w h in
      let small : byte < 256 = subst (λ n. byte < 2 ^ n) eight (value-below f.bits below) in
      let (r₁, run₁, is, _, _) =
        Runs-frame board ram_chips f t u r m (parts pages).0 ends (eight, below) mode zeroed this in
      let run₂ = Runs-result board ram_chips u byte r₁ m (parts pages).1 ends mode is small in
      let r₂ = set (set r₁ 4 0) 30 1 in
      let (r₃, run₃) = Runs-frames fs u w r₂ m' pages ends are mode refl later in
      (r₃, Runs-trans run₁ (Runs-trans run₂ run₃))

  -- A chip is at 0xB4 with FLASH_MODE off and FLASH_PAGE at 0, its RAM holds the bytes of the handoff
  -- stub from 0xB4 on, and its flash holds the image that ps2_reader builds. When the polls of GPIO_IN
  -- see frames clocked in one after another, each with eight data bits, the chip comes to page 1 with
  -- the byte of each frame (lowest bit first) written to GPIO_OUT, in their order and with no write
  -- between them, FLASH_MODE on, and the rest of the memory map as it was.
  pub ps2_reader-receives :
      (stub image : List ℕ) (fs : List Frame) (w : ℕ) (r : ℕ → ℕ) (m : Chip D)
      → handoff_stub ≡ ok stub
      → ps2_reader ≡ ok image
      → HasBytes m.ram 4 stub
      → HasBytes board.flash 0 image
      → m.flash_mode ≡ false
      → m.flash_page ≡ 0
      → AreFrames fs
      → Clocked board (flatten (map line fs)) m.sampled w
      → (r' : ℕ → ℕ) × Runs
          (chip_bus board ram_chips)
          (running 0xB4 r, m)
          (
            running 0xB4 r',
            record m {
              flash_mode = true;
              flash_page = 1;
              sampled = w;
              gpio_out = last_byte m.gpio_out fs;
              written = all_bytes fs m.written;
            },
          )
  ps2_reader-receives stub image fs w r m handed built loaded flashed off first are h =
      let (pages, ends) = reader_pages image built flashed in
      let m₁ = record m { flash_mode = true } in
      let r₁ = set (set r 4 0) 30 1 in
      let (r₂, run) = Runs-frames fs m.sampled w r₁ m₁ pages ends are refl refl h in
      let turned =
        subst
          (λ n.
            step (chip_bus board ram_chips) (running 0xB4 r, m)
            ≡ (running 0xB8 r, record m₁ { flash_page = n }))
          first (step-stub board ram_chips stub r m handed loaded off) in
      (r₂, Runs-step turned (Runs-trans (Runs-start board ram_chips r m₁ pages.0 ends refl) run))
