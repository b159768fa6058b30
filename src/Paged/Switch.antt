-- ===== src/Paged/Switch.antt =====
-- What a page holds: `switch_to` and `switch_to_computed` of tools/asm_pineapple.py.
use agil_a.Common.{
  ℕ, ◌+◌, ◌-◌, ◌*◌, ◌/◌, ◌^◌, ◌≤◌, ◌<◌, ◌≡◌, ap, ◌∙◌, arith, Option, List, [], ◌∷◌, ◌++◌, ok, err,
  assertion_error, length, length-append, length-replicate,
}
use agil_a.Common.Int.{ℤ, pos, pos-sub, ◌-ℤ◌}
use agil_a.Asm.Encode.{word, addi}
use agil_a.Asm.Encode.Bounds.{addi-lt}
use agil_a.Asm.Finalize.{finalize}
use agil_a.Asm.Finalize.Refines.{Item}
use agil_a.Asm.Finalize.Total.{Builds-Inv}
use agil_a.Asm.Bytes.Laws.{AllBelow, AllBelow-append, to_bytes}
use agil_a.Paged.State.{PagedAsm, switch_to, switch_to_computed, scratch_or}
use agil_a.Paged.Pages.{
  emit_all-append, close_page-emit_all, padding, padding-AllBelow, switch_to_computed-do,
  switch_to-do,
}
use agil_a.Paged.Layout.{IsOpen, Holds, nop, closing, next_page, pad_to-replicate, pad_to-full}

-- Where the closing words begin, in words.
abbrev pub closing_at : PagedAsm → ℕ
closing_at p = (p.window_bytes - 8) / 4

module _ (p : PagedAsm) (items : List Item) (ws : List ℕ) (scratch_reg : Option ℕ)
    (open_ : IsOpen p items) (returns : finalize p.cur ≡ ok ws) (below : AllBelow (2 ^ 32) ws)
    (register : scratch_or p scratch_reg < 32) where
  holds : Holds p.load_base (length items) p.cur
  holds = ((Builds-Inv open_.built).0, (Builds-Inv open_.built).1)

  -- `switch_to_computed` on a page of at most `window_bytes - 8` bytes whose words `finalize` gives
  -- and that fit 32 bits: it finishes a page of the code from offset 0, NOPs up to the fixed switch
  -- offset, the write of FLASH_PAGE there, and the trampoline in the last word of the window. The
  -- object goes on with an empty page of the next number, all else unchanged.
  pub switch_to_computed-words :
      length items * 4 + 8 ≤ p.window_bytes
      → switch_to_computed scratch_reg p
        ≡ ok (
            next_page p (
              to_bytes
                ((ws ++ padding (closing_at p) items) ++ closing p (scratch_or p scratch_reg))))
  switch_to_computed-words fits =
      let n = length items in
      let k : ℕ = closing_at p - n in
      let target : p.switch_offset ≡ pos ((n + k) * 4) =
        open_.switch_at ∙ ap pos (omega (arith, open_.aligned)) in
      rw (switch_to_computed-do, pad_to-replicate k n p.load_base p.switch_offset p target holds)
        (close_page-emit_all p items ws (padding (closing_at p) items) (scratch_or p scratch_reg)
          open_ returns below (padding-AllBelow (closing_at p) items) register
          (omega (arith, open_.aligned, length-replicate k nop)))

  -- `switch_to` on a page of at most `window_bytes - 12` bytes whose words `finalize` gives and that
  -- fit 32 bits: as `switch_to_computed`, but the word before the write of FLASH_PAGE loads the
  -- page number into the scratch register.
  pub switch_to-words :
      (next : ℤ)
      → length items * 4 + 12 ≤ p.window_bytes
      → let scratch = scratch_or p scratch_reg in
        switch_to next scratch_reg p
        ≡ ok (
            next_page p (
              to_bytes (
                (ws ++ (padding (closing_at p - 1) items ++ word (addi scratch 0 next) ∷ []))
                ++ closing p scratch)))
  switch_to-words next fits =
      let n = length items in
      let k : ℕ = closing_at p - 1 - n in
      let scratch = scratch_or p scratch_reg in
      let target : p.switch_offset -ℤ pos 4 ≡ pos ((n + k) * 4) =
        ap (λ v. v -ℤ pos 4) open_.switch_at
        ∙ pos-sub (p.window_bytes - 8) 4 (omega (arith, open_.room))
        ∙ ap pos (omega (arith, open_.aligned, open_.room)) in
      let load = word (addi scratch 0 next) in
      let nops = padding (closing_at p - 1) items in
      rw
        (
          switch_to-do,
          pad_to-replicate k n p.load_base (p.switch_offset -ℤ pos 4) p target holds,
          ← emit_all-append nops (load ∷ []) p.cur,
        )
        (close_page-emit_all p items ws (nops ++ load ∷ []) scratch open_ returns below
          (AllBelow-append (2 ^ 32) nops (load ∷ []) (padding-AllBelow (closing_at p - 1) items)
            (addi-lt scratch 0 next register (omega arith), tt))
          register
          (omega
            (arith, open_.aligned, length-replicate k nop, length-append {0} nops (load ∷ []))))

module _ (p : PagedAsm) (items : List Item) (scratch_reg : Option ℕ) (open_ : IsOpen p items) where
  counts : Holds p.load_base (length items) p.cur
  counts = ((Builds-Inv open_.built).0, (Builds-Inv open_.built).1)

  -- Code that leaves no room for the load of the page number and the two closing words makes
  -- `switch_to` fail its assertion.
  pub switch_to-full :
      (next : ℤ)
      → p.window_bytes < length items * 4 + 12
      → switch_to next scratch_reg p ≡ err assertion_error
  switch_to-full next over =
      let target : p.switch_offset -ℤ pos 4 ≡ pos (p.window_bytes - 12) =
        ap (λ v. v -ℤ pos 4) open_.switch_at
        ∙ pos-sub (p.window_bytes - 8) 4 (omega (arith, open_.room))
        ∙ ap pos (omega arith) in
      rw (
        switch_to-do,
        pad_to-full (length items) p.load_base (p.window_bytes - 12) (p.switch_offset -ℤ pos 4) p
            target (omega (arith, open_.room)) counts,
      )

  -- Code that leaves no room for the two closing words makes `switch_to_computed` fail its assertion.
  pub switch_to_computed-full :
      p.window_bytes < length items * 4 + 8 → switch_to_computed scratch_reg p ≡ err assertion_error
  switch_to_computed-full over = rw (
    switch_to_computed-do,
    pad_to-full (length items) p.load_base (p.window_bytes - 8) p.switch_offset p open_.switch_at
        (omega (arith, open_.room)) counts,
  )
