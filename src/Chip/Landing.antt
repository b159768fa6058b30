-- ===== src/Chip/Landing.antt =====
-- A page that `switch_to` or `switch_to_computed` of tools/asm_pineapple.py finished, fetched from the
-- flash through the window of src/mem.v and run from the end of its code: the padding, the write of
-- FLASH_PAGE, and then the last word of the page that has just been chosen.
use agil_a.Common.{
  ℕ, suc, ◌+◌, ◌-◌, ◌*◌, ◌%◌, ◌^◌, ◌≤◌, ◌<◌, ◌≡◌, refl, sym, ap, subst, ◌∙◌, arith, true, false,
  lt→ltb, List, [], ◌∷◌, ◌++◌, Option, Result, ok, err, length, replicate, append_assoc, drop,
  drop-append, ◌==◌,
}
use agil_a.Common.Int.{ℤ, pos, neg, mask}
use agil_a.Asm.Encode.{word, addi, sw}
use agil_a.Asm.Encode.Bounds.{addi-lt, sw-lt, jal_word-lt}
use agil_a.Asm.Finalize.{finalize}
use agil_a.Asm.Finalize.Refines.{Item}
use agil_a.Asm.Finalize.Indices.{nth-finalize}
use agil_a.Asm.Bytes.Laws.{AllBelow, AllBelow-append, to_bytes}
use agil_a.Core.Exec.{reg, set_reg, step}
use agil_a.Core.Meaning.{Fits, perform, put}
use agil_a.Core.Encoded.Formats.{exec_jal}
use agil_a.Core.Runs.{Runs, stop, running, set, Runs-step, Runs-trans}
use agil_a.Paged.State.{PagedAsm, switch_to, switch_to_computed, scratch_or}
use agil_a.Paged.Layout.{IsOpen, closing, next_page, nop, trampoline}
use agil_a.Paged.Pages.{padding, padding-AllBelow}
use agil_a.Paged.Run.{exec-addi_zero}
use agil_a.Paged.Switch.{closing_at, switch_to-words, switch_to_computed-words}
use agil_a.Chip.Memory.{Board, Psram, Chip, write, chip_bus, word_at}
use agil_a.Chip.Run.{HasWords, OnPage, step-fetched, step-instr, Runs-nops}
use agil_a.Chip.Image.{HasBytes, HasWords-bytes, below_word}

-- An object whose pages fill the chip's flash window, 44 bytes at 0xB4, and are chosen by FLASH_PAGE.
abbrev pub IsForChip : PagedAsm → Type 0
IsForChip p = (p.load_base ≡ 0xB4) × (p.window_bytes ≡ 44) × (p.flash_page_addr ≡ 0xFC)

-- The chip, set to another page.
abbrev pub on_page : {D : Type 0} → ℕ → Chip D → Chip D
on_page n m = record m { flash_page = n }

AllBelow-below_word : (ws : List ℕ) → AllBelow (2 ^ 32) ws → below_word ws ≡ true
AllBelow-below_word [] h = refl
AllBelow-below_word (w ∷ ws) (hw, h) = rw (lt→ltb w (2 ^ 32) hw) (AllBelow-below_word ws h)

HasWords-append :
    (board : Board) (k i : ℕ) (xs ys : List ℕ)
    → HasWords board k i (xs ++ ys)
    → HasWords board k (i + length xs) ys
HasWords-append board k i [] ys h = subst (λ n. HasWords board k n ys) (omega arith) h
HasWords-append board k i (x ∷ xs) ys (_, h) =
    subst (λ n. HasWords board k n ys) (omega arith) (HasWords-append board k (suc i) xs ys h)

-- The object after a page has been finished tells the page.
next_page-inj :
    (p : PagedAsm) (a b : List ℕ)
    → ◌≡◌ {A = Result PagedAsm} (ok (next_page p a)) (ok (next_page p b))
    → a ≡ b
next_page-inj p a b e =
    let pages =
      λ (r : Result PagedAsm). elim r as (λ x. List (List ℕ)) [ ok q ↦ q.pages | err x ↦ [] ] in
    let same : a ∷ [] ≡ b ∷ [] =
      sym (drop-append p.pages (a ∷ []))
      ∙ ap (λ r. drop (length p.pages) (pages r)) e
      ∙ drop-append p.pages (b ∷ []) in
    cc

put-running :
    (pc : ℕ) (r : ℕ → ℕ) (rd v : ℕ)
    → 0 < rd
    → put (running pc r) rd v ≡ running ((pc + 4) % 256) (set r rd v)
unfolding set_reg
put-running pc r rd v h = let there : (rd == 0) ≡ false = ground arith in rw there refl

module _ {D : Type 0} (board : Board) (ram_chips : Psram D) where
  -- The two words that close a page, whatever the register of the page number: the second is fetched
  -- from the page that the first has chosen.
  Runs-closing :
      (k scratch : ℕ) (r : ℕ → ℕ) (m : Chip D)
      → HasWords board k 9 (word (sw scratch 0 (pos 0xFC)) ∷ trampoline 44 ∷ [])
      → word_at board.flash (reg (running 0xD8 r) scratch % 2 ^ 8 * 44 + 40) ≡ trampoline 44
      → OnPage k m
      → scratch < 32
      → Runs
          (chip_bus board ram_chips)
          (running 0xD8 r, m)
          (running 0xB4 r, on_page (reg (running 0xD8 r) scratch % 2 ^ 8) m)
  unfolding perform write set_reg mask
  Runs-closing k scratch r m (holds, _) bounces (mode, at) small =
      let target = reg (running 0xD8 r) scratch % 2 ^ 8 in
      let m' = on_page target m in
      let zero_reg : reg (running 0xD8 r) 0 ≡ 0 = unfold reg in refl in
      let first : step (chip_bus board ram_chips) (running 0xD8 r, m) ≡ (running 0xDC r, m') =
        step-instr board ram_chips k 9 (sw scratch 0 (pos 0xFC)) r m holds (mode, at) (omega arith)
          (small, omega arith, (omega arith, omega arith))
        ∙ rw zero_reg refl in
      let second : step (chip_bus board ram_chips) (running 0xDC r, m') ≡ (running 0xB4 r, m') =
        step-fetched board ram_chips target 10 (trampoline 44) r m' bounces (mode, refl)
          (omega arith)
        ∙ exec_jal (chip_bus board ram_chips) (running 0xDC r) m' 0 (neg 40) (omega arith) refl in
      Runs-step first (Runs-step second stop)

  -- The NOPs after the code of a page, and what stands behind them.
  Runs-padding :
      (k i n at : ℕ) (ws tail : List ℕ) (r : ℕ → ℕ) (m : Chip D)
      → AllBelow (2 ^ 32) ((ws ++ replicate n nop) ++ tail)
      → HasBytes board.flash (k * 44) (to_bytes ((ws ++ replicate n nop) ++ tail))
      → OnPage k m
      → length ws ≡ i
      → i + n ≡ at
      → at < 11
      → Runs (chip_bus board ram_chips) (running (0xB4 + i * 4) r, m) (running (0xB4 + at * 4) r, m)
        × HasWords board k at tail
  Runs-padding k i n at ws tail r m below holds on size full small =
      let page = (ws ++ replicate n nop) ++ tail in
      let words : HasWords board k 0 page =
        HasWords-bytes board k 0 page (AllBelow-below_word page below)
          (subst (λ x. HasBytes board.flash x (to_bytes page)) (omega arith) holds) in
      let there : 0 + length ws ≡ i = omega (arith, size) in
      let code =
        HasWords-append board k 0 ws (replicate n nop ++ tail)
          (subst (HasWords board k 0) (append_assoc ws (replicate n nop) tail) words) in
      subst
        (λ x.
          Runs (chip_bus board ram_chips) (running (0xB4 + i * 4) r, m)
            (running (0xB4 + x * 4) r, m)
          × HasWords board k x tail)
        full
        (Runs-nops board ram_chips n i k tail r m
          (subst (λ x. HasWords board k x (replicate n nop ++ tail)) there code) on
          (omega (arith, full)))

  -- The load of the page number.
  step-load_page :
      (k i rd : ℕ) (next : ℤ) (r : ℕ → ℕ) (m : Chip D)
      → word_at board.flash (k * 44 + i * 4) ≡ word (addi rd 0 next)
      → OnPage k m
      → i < 10
      → (0 < rd) × (rd < 32)
      → Fits next
      → step (chip_bus board ram_chips) (running (0xB4 + i * 4) r, m)
        ≡ (running (0xB4 + suc i * 4) (set r rd (mask 32 next)), m)
  step-load_page k i rd next r m holds on h (positive, register) fits =
      let here : (0xB4 + i * 4 + 4) % 256 ≡ 0xB4 + suc i * 4 = omega arith in
      step-fetched board ram_chips k i (word (addi rd 0 next)) r m holds on (omega arith)
      ∙ exec-addi_zero (chip_bus board ram_chips) rd next (running (0xB4 + i * 4) r) m register fits
      ∙ ap (λ c. (c, m)) (put-running (0xB4 + i * 4) r rd (mask 32 next) positive)
      ∙ ap (λ pc. (running pc (set r rd (mask 32 next)), m)) here

regroup :
    (ws nops : List ℕ) (load : ℕ) (last : List ℕ)
    → (ws ++ (nops ++ load ∷ [])) ++ last ≡ (ws ++ nops) ++ load ∷ last
regroup ws nops load last = simp append_assoc

reg-set : (pc : ℕ) (r : ℕ → ℕ) (rd v : ℕ) → 0 < rd → reg (running pc (set r rd v)) rd ≡ v
unfolding reg
reg-set pc r rd v h = ground arith

closing-chip :
    (p : PagedAsm) (scratch : ℕ)
    → IsForChip p
    → closing p scratch ≡ word (sw scratch 0 (pos 0xFC)) ∷ trampoline 44 ∷ []
closing-chip p scratch (_, window, address) = rw (window, address) refl

closing-AllBelow :
    (scratch : ℕ)
    → scratch < 32
    → AllBelow (2 ^ 32) (word (sw scratch 0 (pos 0xFC)) ∷ trampoline 44 ∷ [])
closing-AllBelow scratch hs =
    (sw-lt scratch 0 (pos 0xFC) hs (omega arith), (jal_word-lt 0 (neg 40) (omega arith), tt))

module _ {D : Type 0} (board : Board) (ram_chips : Psram D) (k : ℕ) (r : ℕ → ℕ) (m : Chip D)
    (p : PagedAsm) (items : List Item) (ws : List ℕ) (scratch_reg : Option ℕ) (page : List ℕ)
    (open_ : IsOpen p items) (chip : IsForChip p) (returns : finalize p.cur ≡ ok ws)
    (below : AllBelow (2 ^ 32) ws) (register : scratch_or p scratch_reg < 32) (on : OnPage k m)
    (holds : HasBytes board.flash (k * 44) page) where
  words : length ws ≡ length items
  words = (nth-finalize p.load_base p.cur items ws open_.built returns).0

  nine : closing_at p ≡ 9
  nine = omega (arith, chip.1)

  -- A page that `switch_to_computed` finishes for the chip's window of 44 bytes, with at most 36 bytes
  -- of code whose words `finalize` gives and that fit 32 bits, and with one of the 32 registers as its
  -- scratch register. It stands in the flash as page `k`, the
  -- chip runs from that page, and the page with the number in the scratch register's low byte has the
  -- trampoline as its last word. From the end of the code, through the padding, the chip writes
  -- that number to FLASH_PAGE and then fetches the last word of the new page, which takes the core to the
  -- first address of the window, on the new page. The registers, and all else of the memory map, are as
  -- they were.
  pub switch_to_computed-lands :
      switch_to_computed scratch_reg p ≡ ok (next_page p page)
      → length items * 4 + 8 ≤ 44
      → word_at board.flash (reg (running 0xD8 r) (scratch_or p scratch_reg) % 2 ^ 8 * 44 + 40)
        ≡ trampoline 44
      → Runs
          (chip_bus board ram_chips)
          (running (0xB4 + length items * 4) r, m)
          (running 0xB4 r, on_page (reg (running 0xD8 r) (scratch_or p scratch_reg) % 2 ^ 8) m)
  switch_to_computed-lands done fits bounces =
      let scratch = scratch_or p scratch_reg in
      let n : ℕ = 9 - length items in
      let last = word (sw scratch 0 (pos 0xFC)) ∷ trampoline 44 ∷ [] in
      let layout : to_bytes ((ws ++ padding (closing_at p) items) ++ closing p scratch)
          ≡ to_bytes ((ws ++ replicate n nop) ++ last) =
        rw (nine, closing-chip p scratch chip) refl in
      let same =
        next_page-inj p page _ (
          sym done
          ∙ switch_to_computed-words p items ws scratch_reg open_ returns below register
              (omega (arith, chip.1)))
        ∙ layout in
      let low =
        AllBelow-append (2 ^ 32) (ws ++ replicate n nop) last
          (AllBelow-append (2 ^ 32) ws (replicate n nop) below (padding-AllBelow 9 items))
          (closing-AllBelow scratch register) in
      let (run, code) =
        Runs-padding board ram_chips k (length items) n 9 ws last r m low
          (subst (HasBytes board.flash (k * 44)) same holds) on words (omega arith) (omega arith) in
      Runs-trans run (Runs-closing board ram_chips k scratch r m code bounces on register)

  -- A page that `switch_to` finishes for the chip's window of 44 bytes, with at most 32 bytes of code
  -- whose words `finalize` gives and that fit 32 bits; the page number fits twelve bits, and the scratch
  -- register is one of x1 to x31. It stands in the flash as page `k`, the chip runs from that page, and the page
  -- with the low byte of the number has the trampoline as its last word. From the end of the code,
  -- through the padding, the chip loads the number, as 32 bits, into the scratch register, writes
  -- its low byte to FLASH_PAGE, and then fetches the last word of the new page, which takes the core to
  -- the first address of the window, on the new page. The other registers, and all else of the memory
  -- map, are as they were.
  pub switch_to-lands :
      (next : ℤ)
      → switch_to next scratch_reg p ≡ ok (next_page p page)
      → Fits next
      → 0 < scratch_or p scratch_reg
      → length items * 4 + 12 ≤ 44
      → word_at board.flash (mask 32 next % 2 ^ 8 * 44 + 40) ≡ trampoline 44
      → Runs
          (chip_bus board ram_chips)
          (running (0xB4 + length items * 4) r, m)
          (
            running 0xB4 (set r (scratch_or p scratch_reg) (mask 32 next)),
            on_page (mask 32 next % 2 ^ 8) m,
          )
  switch_to-lands next done in_bits positive fits bounces =
      let scratch = scratch_or p scratch_reg in
      let n : ℕ = 8 - length items in
      let load = word (addi scratch 0 next) in
      let last = word (sw scratch 0 (pos 0xFC)) ∷ trampoline 44 ∷ [] in
      let eight : closing_at p - 1 ≡ 8 = omega (arith, nine) in
      let layout : to_bytes
            ((ws ++ (padding (closing_at p - 1) items ++ load ∷ [])) ++ closing p scratch)
          ≡ to_bytes ((ws ++ replicate n nop) ++ load ∷ last) =
        rw (eight, closing-chip p scratch chip)
          (ap to_bytes (regroup ws (replicate n nop) load last)) in
      let same =
        next_page-inj p page _ (
          sym done
          ∙ switch_to-words p items ws scratch_reg open_ returns below register next
              (omega (arith, chip.1)))
        ∙ layout in
      let low =
        AllBelow-append (2 ^ 32) (ws ++ replicate n nop) (load ∷ last)
          (AllBelow-append (2 ^ 32) ws (replicate n nop) below (padding-AllBelow 8 items))
          (addi-lt scratch 0 next register (omega arith), closing-AllBelow scratch register) in
      let (run, (loads, code)) =
        Runs-padding board ram_chips k (length items) n 8 ws (load ∷ last) r m low
          (subst (HasBytes board.flash (k * 44)) same holds) on words (omega arith) (omega arith) in
      let r' = set r scratch (mask 32 next) in
      let loaded : reg (running 0xD8 r') scratch ≡ mask 32 next =
        reg-set 0xD8 r scratch (mask 32 next) positive in
      let target = ap (λ (v : ℕ). v % 2 ^ 8) loaded in
      Runs-trans run (
        Runs-step
          (step-load_page board ram_chips k 8 scratch next r m loads on (omega arith)
            (positive, register) in_bits)
          (subst
            (λ t.
              Runs (chip_bus board ram_chips) (running 0xD8 r', m) (running 0xB4 r', on_page t m))
            target
            (Runs-closing board ram_chips k scratch r' m code
              (ap (λ t. word_at board.flash (t * 44 + 40)) target ∙ bounces) on register)))
