-- ===== src/Paged/Examples.antt =====
-- A page of three instructions for the window of 44 bytes that the chip's loader fills at 0xB4, and
-- pages with too much code.
use agil_a.Common.{
  ℕ, ◌*◌, ◌^◌, ◌≡◌, refl, arith, none, some, List, [], ◌∷◌, ◌++◌, ok, err, assertion_error, length,
  replicate,
}
use agil_a.Common.Int.{pos}
use agil_a.Asm.Encode.{addi, sw, word}
use agil_a.Asm.State.{asm, emit, op}
use agil_a.Asm.Finalize.{finalize}
use agil_a.Asm.Finalize.Refines.{start}
use agil_a.Asm.Bytes.Laws.{AllBelow, to_bytes}
use agil_a.Paged.State.{PagedAsm, paged_asm, page, image, switch_to, switch_to_computed}
use agil_a.Paged.Layout.{IsOpen, closing, next_page, nop, emit_all-Builds, emit_all, finished}
use agil_a.Paged.Switch.{
  switch_to-words, switch_to_computed-words, switch_to-full, switch_to_computed-full,
}
use agil_a.Paged.Image.{Reaches, started, paged, switched, AllOfLength, length-image}

-- The page's words: the NOP of page 0, then x2 = 0x11 and its write to GPIO_OUT.
abbrev pub lit : List ℕ
lit = 0x00000013 ∷ 0x01100113 ∷ 0x0e202823 ∷ []

-- A page that holds the given finished words.
abbrev pub page_of : List ℕ → PagedAsm
page_of ws = record {
  load_base = 0xB4;
  window_bytes = 44;
  switch_offset = pos 36;
  trampoline_offset = pos 40;
  flash_page_addr = 0xFC;
  switch_scratch_reg = 30;
  pages = [];
  cur_page_num = 0;
  cur = emit_all ws (asm 0xB4);
}

pub page_of-IsOpen : (ws : List ℕ) → IsOpen (page_of ws) (finished ws)
page_of-IsOpen ws = record {
  room = omega arith;
  aligned = refl;
  near = omega arith;
  switch_at = refl;
  trampoline_at = refl;
  built = emit_all-Builds 0xB4 ws (asm 0xB4) [] start;
}

pub lit_returns : finalize (page_of lit).cur ≡ ok lit
unfolding finalize emit
lit_returns = refl

pub lit-AllBelow : AllBelow (2 ^ 32) lit
lit-AllBelow = (omega arith, (omega arith, (omega arith, tt)))

switch_to_computed-words_example :
    switch_to_computed none (page_of lit)
    ≡ ok (next_page (page_of lit) (to_bytes ((lit ++ replicate 6 nop) ++ closing (page_of lit) 30)))
switch_to_computed-words_example =
    switch_to_computed-words (page_of lit) (finished lit) lit none (page_of-IsOpen lit) lit_returns
      lit-AllBelow (omega arith) (omega arith)

switch_to-words_example :
    switch_to (pos 1) (some 29) (page_of lit)
    ≡ ok (
        next_page (page_of lit) (
          to_bytes (
            (lit ++ (replicate 5 nop ++ word (addi 29 0 (pos 1)) ∷ []))
            ++ closing (page_of lit) 29)))
switch_to-words_example =
    switch_to-words (page_of lit) (finished lit) lit (some 29) (page_of-IsOpen lit) lit_returns
      lit-AllBelow (omega arith) (pos 1) (omega arith)

-- Nine words leave no room for the load of the page number.
switch_to-full_example : switch_to (pos 1) none (page_of (replicate 9 nop)) ≡ err assertion_error
switch_to-full_example =
    switch_to-full (page_of (replicate 9 nop)) (finished (replicate 9 nop)) none
      (page_of-IsOpen (replicate 9 nop)) (pos 1) (omega arith)

-- Ten words leave no room for the closing words either.
switch_to_computed-full_example :
    switch_to_computed none (page_of (replicate 10 nop)) ≡ err assertion_error
switch_to_computed-full_example =
    switch_to_computed-full (page_of (replicate 10 nop)) (finished (replicate 10 nop)) none
      (page_of-IsOpen (replicate 10 nop)) (omega arith)

-- The object after the page has been ended with a switch to page 1.
abbrev lit_ended : PagedAsm
lit_ended = next_page (page_of lit) (
    to_bytes
      ((lit ++ (replicate 5 nop ++ word (addi 30 0 (pos 1)) ∷ [])) ++ closing (page_of lit) 30))

lit_ended-Reaches : Reaches 0xB4 44 0xFC 30 lit_ended
unfolding paged_asm page op emit word switch_to
lit_ended-Reaches =
    switched (pos 1) none
      (paged (op (sw 2 0 (pos 0xF0))) (paged (op (addi 2 0 (pos 0x11))) (started refl) refl) refl)
      refl

length-image_example :
    AllOfLength 44 lit_ended.pages
    × (lit_ended.cur_page_num ≡ length lit_ended.pages)
    × (length (image lit_ended) ≡ lit_ended.cur_page_num * 44)
length-image_example = length-image 0xB4 44 0xFC 30 lit_ended lit_ended-Reaches
