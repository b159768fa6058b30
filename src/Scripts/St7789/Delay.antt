-- ===== src/Scripts/St7789/Delay.antt =====
-- The delay pages of tools/build_st7789_flash_image.py, on the core of src/rv32i_core.v.
use agil_a.Common.{
  ℕ, suc, ◌+◌, ◌*◌, ◌%◌, ◌^◌, ◌<◌, ◌≡◌, refl, sym, subst, ap, ◌∙◌, arith, false, List, [], ◌∷◌,
  ◌++◌, ok, ◌>=>◌, replicate, none, some,
}
use agil_a.Common.Int.{pos, neg, mask}
use agil_a.Asm.Encode.{word, addi, branch_word, jal_word}
use agil_a.Asm.State.{Asm, asm, emit, op, label, beq, branch_to, jal_to, branch, jal}
use agil_a.Core.Exec.{Core, Bus, set_reg, step}
use agil_a.Core.Meaning.{put}
use agil_a.Paged.State.{PagedAsm, page, switch_to}
use agil_a.Asm.Finalize.{finalize}
use agil_a.Asm.Finalize.Refines.{
  Item, done, pending, Builds, start, one, branched, jumped, labelled,
}
use agil_a.Asm.Encode.Bounds.{addi-lt, jal_word-lt}
use agil_a.Asm.Bytes.Laws.{AllBelow, to_bytes}
use agil_a.Paged.Layout.{nop, closing, next_page, with_cur}
use agil_a.Paged.Switch.{switch_to-words}
use agil_a.Paged.Run.{reg-put, exec-addi_zero}
use agil_a.Scripts.St7789.{delay_page}
use agil_a.Scripts.St7789.DelayLoop.{steps, Serves, step-exec, EndsDelay, loop}

addi-low : (d : ℕ) → word (addi 2 0 (pos d)) ≡ word (addi 2 0 (pos (d % 4096)))
unfolding word mask
addi-low d = let same : d % 4096 % 4096 ≡ d % 4096 = omega arith in rw same

-- The delay page keeps the low twelve bits of its count: any count gives the page, or the error, that
-- its remainder by 4096 gives.
pub delay_page-low :
    (d next : ℕ) (p : PagedAsm) → delay_page d next p ≡ delay_page (d % 4096) next p
unfolding delay_page op
delay_page-low d next p =
    ap
      (λ (w : ℕ).
        (page (λ a. ok (emit (some w) none a))
            >=> page (label "DELAY_LOOP")
            >=> page (beq 2 0 "DELAY_DONE")
            >=> page (op (addi 2 2 (neg 1)))
            >=> page (jal_to 0 "DELAY_LOOP")
            >=> page (label "DELAY_DONE")
            >=> switch_to (pos next) none)
          p)
      (addi-low d)

-- The script's object after some finished pages.
abbrev pub fresh_page : List (List ℕ) → ℕ → PagedAsm
fresh_page pages n = record {
  load_base = 0xB4;
  window_bytes = 44;
  switch_offset = pos 36;
  trampoline_offset = pos 40;
  flash_page_addr = 0xFC;
  switch_scratch_reg = 30;
  pages = pages;
  cur_page_num = n;
  cur = asm 0xB4;
}

abbrev delay_items : ℕ → List Item
delay_items d =
    done (word (addi 2 0 (pos d)))
    ∷ pending (branch 0 2 0 "DELAY_DONE")
    ∷ done (word (addi 2 2 (neg 1)))
    ∷ pending (jal 0 "DELAY_LOOP")
    ∷ []

abbrev delay_asm : ℕ → Asm
delay_asm d = record {
  instrs = some (word (addi 2 0 (pos d))) ∷ none ∷ some (word (addi 2 2 (neg 1))) ∷ none ∷ [];
  labels = ("DELAY_DONE", 0xC4) ∷ ("DELAY_LOOP", 0xB8) ∷ [];
  fixups = (1, branch 0 2 0 "DELAY_DONE") ∷ (3, jal 0 "DELAY_LOOP") ∷ [];
  base = 0xB4;
}

abbrev delay_code : ℕ → List ℕ
delay_code d =
    word (addi 2 0 (pos d))
    ∷ branch_word 0 2 0 (pos 12)
    ∷ word (addi 2 2 (neg 1))
    ∷ jal_word 0 (neg 8)
    ∷ []

-- The eleven words of a delay page.
abbrev pub delay_words : ℕ → ℕ → List ℕ
delay_words d next =
    (delay_code d ++ (replicate 4 nop ++ word (addi 30 0 (pos next)) ∷ []))
    ++ closing (fresh_page [] 0) 30

delay-Builds : (d : ℕ) → Builds 0xB4 (delay_asm d) (delay_items d)
unfolding op branch_to jal_to label emit
delay-Builds d =
    labelled "DELAY_DONE"
      (jumped 0 "DELAY_LOOP"
        (one (addi 2 2 (neg 1))
          (branched 0 2 0 "DELAY_DONE"
            (labelled "DELAY_LOOP" (one (addi 2 0 (pos d)) start refl) refl) refl)
          refl)
        refl)
      refl

delay_returns : (d : ℕ) → finalize (delay_asm d) ≡ ok (delay_code d)
unfolding finalize
delay_returns d = refl

delay_code-AllBelow : (d : ℕ) → AllBelow (2 ^ 32) (delay_code d)
unfolding branch_word
delay_code-AllBelow d = (
  addi-lt 2 0 (pos d) (omega arith) (omega arith),
  (
    omega arith,
    (addi-lt 2 2 (neg 1) (omega arith) (omega arith), (jal_word-lt 0 (neg 8) (omega arith), tt)),
  ),
)

delay_page-words :
    (pages : List (List ℕ)) (n d next : ℕ)
    → let p = fresh_page pages n in
      delay_page d next p ≡ ok (next_page p (to_bytes (delay_words d next)))
unfolding delay_page page op beq branch_to jal_to label emit
delay_page-words pages n d next =
    switch_to-words (with_cur (fresh_page pages n) (delay_asm d)) (delay_items d) (delay_code d)
      none
      (record {
        room = omega arith;
        aligned = refl;
        near = omega arith;
        switch_at = refl;
        trampoline_at = refl;
        built = delay-Builds d;
      })
      (delay_returns d) (delay_code-AllBelow d) (omega arith) (pos next) (omega arith)

-- The delay page of a count below 2048: the script's object, with a fresh page of the window at 0xB4,
-- finishes a page of eleven words, and a core that fetches these words from 0xB4 on reaches 0xC4, the
-- first word after the loop, in 3 * count + 2 instructions, with x2 = 0 and the memory as it was.
pub delay_page-counts :
    {M : Type 0} (bus : Bus M) (c : Core) (m : M) (pages : List (List ℕ)) (n d next : ℕ)
    → d < 2048
    → Serves bus m 0xB4 (delay_words d next)
    → c.halted ≡ false
    → c.pc ≡ 0xB4
    → let p = fresh_page pages n in
      (delay_page d next p ≡ ok (next_page p (to_bytes (delay_words d next))))
      × EndsDelay bus m (steps bus (d * 3 + 2) (c, m))
unfolding mask set_reg
delay_page-counts bus c m pages n d next small (first, (b, (s, (j, rest)))) runs here =
    let c₁ = put c 2 (mask 32 (pos d)) in
    let more : d * 3 + 2 ≡ suc (d * 3 + 1) = omega arith in
    let is : mask 32 (pos d) ≡ d = omega arith in
    let entered : step bus (c, m) ≡ (c₁, m) =
      step-exec bus c m 0xB4 (word (addi 2 0 (pos d))) runs here first
      ∙ exec-addi_zero bus 2 (pos d) c m (omega arith) (omega arith, omega arith) in
    let round : steps bus (d * 3 + 2) (c, m) ≡ steps bus (d * 3 + 1) (c₁, m) =
      ap (λ (k : ℕ). steps bus k (c, m)) more ∙ ap (steps bus (d * 3 + 1)) entered in
    (
      delay_page-words pages n d next,
      subst (EndsDelay bus m) (sym round) (
          loop bus d c₁ m small (b, s, j) runs (omega (arith, here))
            (reg-put c 2 (mask 32 (pos d)) (omega arith) ∙ is)),
    )
