-- ===== src/Paged/State.antt =====
-- tools/asm_pineapple.py, the class `PagedAsm`. Offsets within a page are Python integers: for a
-- window of fewer than eight bytes they are negative.
use mathlib.Core.List.{flatten}
use agil_a.Common.{
  ℕ, zero, suc, ◌-◌, Option, none, some, List, [], ◌∷◌, ◌++◌, Result, ok, ◌>>=◌, ◌>>◌, assert,
  length, ◌==◌, if◌then◌else◌,
}
use agil_a.Common.Int.{ℤ, pos, sub_ℕ, ◌-ℤ◌, pos_part, leb_ℤ, ltb_ℤ, eq_ℤ}
use agil_a.Asm.Encode.{addi, sw, jal_word}
use agil_a.Asm.State.{Asm, asm, addr, emit, op}
use agil_a.Asm.Finalize.{in_range, finalize}
use agil_a.Asm.Bytes.{words_to_bytes}

pub record PagedAsm : Type 0 where
  pub load_base : ℕ
  pub window_bytes : ℕ
  pub switch_offset : ℤ
  pub trampoline_offset : ℤ
  pub flash_page_addr : ℕ
  pub switch_scratch_reg : ℕ
  pub pages : List (List ℕ)
  pub cur_page_num : ℕ
  pub cur : Asm

-- `PagedAsm(load_base, window_bytes, flash_page_addr, switch_scratch_reg)`
unfoldable pub paged_asm : ℕ → ℕ → ℕ → ℕ → Result PagedAsm
unfolding op ◌-ℤ◌
paged_asm load_base window_bytes flash_page_addr switch_scratch_reg = do
  cur ← if load_base == 0 then ok (asm load_base) else op (addi 0 0 (pos 0)) (asm load_base)
  ok (record {
    load_base = load_base;
    window_bytes = window_bytes;
    switch_offset = pos window_bytes -ℤ pos 8;
    trampoline_offset = pos window_bytes -ℤ pos 4;
    flash_page_addr = flash_page_addr;
    switch_scratch_reg = switch_scratch_reg;
    pages = [];
    cur_page_num = 0;
    cur = cur;
  })

-- A method of `p.page`.
unfoldable pub page : (Asm → Result Asm) → PagedAsm → Result PagedAsm
page method p = method p.cur >>= λ cur. ok (record p { cur = cur })

unfoldable pub bytes_used : PagedAsm → ℕ
unfolding addr
bytes_used p = addr p.cur - p.cur.base

unfoldable pub bytes_free : PagedAsm → ℤ
unfolding bytes_used ◌-ℤ◌
bytes_free p = p.switch_offset -ℤ pos (bytes_used p)

-- The loop of `_pad_to`. Each round adds four bytes, so `target` rounds are more than enough.
unfoldable pub pad : ℕ → ℤ → PagedAsm → Result PagedAsm
unfolding bytes_used page op
pad zero target p = ok p
pad (suc fuel) target p =
    let longer = page (op (addi 0 0 (pos 0))) p >>= pad fuel target in
    if ltb_ℤ (pos (bytes_used p)) target then longer else ok p

-- `_pad_to`
unfoldable pub pad_to : ℤ → PagedAsm → Result PagedAsm
unfolding bytes_used pad
pad_to target p = do assert (leb_ℤ (pos (bytes_used p)) target); pad (pos_part target) target p

-- `_emit_trampoline`
unfoldable pub emit_trampoline : PagedAsm → Result PagedAsm
unfolding addr jal_word emit ◌-ℤ◌
emit_trampoline p = do
  let off = sub_ℕ p.load_base (addr p.cur)
  assert (eq_ℤ off (pos 0 -ℤ p.trampoline_offset))
  in_range 1048576 off
  ok (record p { cur = emit (some (jal_word 0 off)) none p.cur })

-- `_finish_current_page`
unfoldable pub finish_current_page : PagedAsm → Result PagedAsm
unfolding finalize words_to_bytes
finish_current_page p = do
  words ← finalize p.cur
  page_bytes ← words_to_bytes words
  assert (length page_bytes == p.window_bytes)
  ok (record p {
    pages = p.pages ++ page_bytes ∷ [];
    cur_page_num = suc p.cur_page_num;
    cur = asm p.load_base;
  })

-- The statements that `switch_to` and `switch_to_computed` end with: the assertion on the offset,
-- the write of FLASH_PAGE, the trampoline, and the end of the page.
unfoldable pub close_page : ℕ → PagedAsm → Result PagedAsm
unfolding bytes_used page op emit_trampoline finish_current_page
close_page scratch p = do
  assert (eq_ℤ (pos (bytes_used p)) p.switch_offset)
  p₁ ← page (op (sw scratch 0 (pos p.flash_page_addr))) p
  p₂ ← emit_trampoline p₁
  finish_current_page p₂

-- `self.switch_scratch_reg if scratch_reg is None else scratch_reg`
abbrev pub scratch_or : PagedAsm → Option ℕ → ℕ
scratch_or p none = p.switch_scratch_reg
scratch_or p (some scratch) = scratch

unfoldable pub switch_to : ℤ → Option ℕ → PagedAsm → Result PagedAsm
unfolding pad_to page op close_page ◌-ℤ◌
switch_to next_page_num scratch_reg p = do
  let scratch = scratch_or p scratch_reg
  p₁ ← pad_to (p.switch_offset -ℤ pos 4) p
  p₂ ← page (op (addi scratch 0 next_page_num)) p₁
  close_page scratch p₂

unfoldable pub switch_to_computed : Option ℕ → PagedAsm → Result PagedAsm
unfolding pad_to close_page
switch_to_computed scratch_reg p =
    pad_to p.switch_offset p >>= close_page (scratch_or p scratch_reg)

unfoldable pub finalize_last_page : Option ℕ → PagedAsm → Result PagedAsm
unfolding switch_to
finalize_last_page scratch_reg p = switch_to (pos p.cur_page_num) scratch_reg p

-- `finalize`: the pages in order.
unfoldable pub image : PagedAsm → List ℕ
image p = flatten p.pages
