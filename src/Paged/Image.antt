-- ===== src/Paged/Image.antt =====
-- The flash image that a script builds with tools/asm_pineapple.py's `PagedAsm`: whatever the calls,
-- if none raises, the image is a whole number of windows.
use mathlib.Core.List.{flatten}
use agil_a.Common.{
  ℕ, zero, suc, ◌*◌, ◌≡◌, refl, sym, ap, ◌∙◌, arith, Bool-cases, inl, inr, Option, none, some, List,
  [], ◌∷◌, ◌++◌, Result, ok, >>=-eq-ok, assert, of_ok, length, length-append, ◌==◌, if◌then◌else◌,
}
use agil_a.Common.Int.{ℤ, pos, sub_ℕ, eq_ℤ, ◌-ℤ◌, ltb_ℤ, leb_ℤ}
use agil_a.Asm.Encode.{addi, sw, word}
use agil_a.Asm.State.{Asm, asm, addr, emit, op}
use agil_a.Asm.Finalize.{finalize, in_range}
use agil_a.Asm.Bytes.{words_to_bytes}
use agil_a.Paged.State.{
  PagedAsm, paged_asm, page, bytes_used, pad, pad_to, emit_trampoline, finish_current_page,
  close_page, switch_to, switch_to_computed, finalize_last_page, image, scratch_or,
}
use agil_a.Paged.Layout.{with_cur, nop, pad-suc, emit_trampoline-do, finish-do, close-do}
use agil_a.Paged.Pages.{switch_to-do, switch_to_computed-do}

-- The objects that a script reaches from `PagedAsm(load_base, window_bytes, …)` by calls that return.
pub data Reaches (load_base window_bytes flash_page_addr scratch : ℕ) : PagedAsm → Type 0 where
  started :
      {p : PagedAsm}
      → paged_asm load_base window_bytes flash_page_addr scratch ≡ ok p
      → Reaches load_base window_bytes flash_page_addr scratch p
  paged :
      {p q : PagedAsm} (method : Asm → Result Asm)
      → Reaches load_base window_bytes flash_page_addr scratch p
      → page method p ≡ ok q
      → Reaches load_base window_bytes flash_page_addr scratch q
  switched :
      {p q : PagedAsm} (next : ℤ) (scratch_reg : Option ℕ)
      → Reaches load_base window_bytes flash_page_addr scratch p
      → switch_to next scratch_reg p ≡ ok q
      → Reaches load_base window_bytes flash_page_addr scratch q
  computed :
      {p q : PagedAsm} (scratch_reg : Option ℕ)
      → Reaches load_base window_bytes flash_page_addr scratch p
      → switch_to_computed scratch_reg p ≡ ok q
      → Reaches load_base window_bytes flash_page_addr scratch q
  ended :
      {p q : PagedAsm} (scratch_reg : Option ℕ)
      → Reaches load_base window_bytes flash_page_addr scratch p
      → finalize_last_page scratch_reg p ≡ ok q
      → Reaches load_base window_bytes flash_page_addr scratch q

abbrev pub AllOfLength : ℕ → List (List ℕ) → Type 0
AllOfLength n [] = Unit
AllOfLength n (xs ∷ xss) = (length xs ≡ n) × AllOfLength n xss

AllOfLength-snoc :
    (n : ℕ) (xss : List (List ℕ)) (xs : List ℕ)
    → AllOfLength n xss
    → length xs ≡ n
    → AllOfLength n (xss ++ xs ∷ [])
AllOfLength-snoc n [] xs h e = (e, tt)
AllOfLength-snoc n (ys ∷ xss) xs (hy, h) e = (hy, AllOfLength-snoc n xss xs h e)

length-flatten :
    (n : ℕ) (xss : List (List ℕ)) → AllOfLength n xss → length (flatten xss) ≡ length xss * n
unfolding flatten
length-flatten n [] h = omega arith
length-flatten n (xs ∷ xss) (e, h) =
    omega (arith, length-append {0} xs (flatten xss), length-flatten n xss h)

-- The finished pages fill their windows, and are numbered from 0.
abbrev pub Paginates : ℕ → PagedAsm → Type 0
Paginates window p =
    (p.window_bytes ≡ window) × (p.cur_page_num ≡ length p.pages) × AllOfLength window p.pages

pad-Paginates :
    (window fuel : ℕ) (target : ℤ) (p q : PagedAsm)
    → Paginates window p
    → pad fuel target p ≡ ok q
    → Paginates window q
pad-Paginates window zero target p q h e =
    let done : ok p ≡ ok q = unfold pad in e in of_ok (Paginates window) done h
pad-Paginates window (suc fuel) target p q h e =
    elim (Bool-cases (ltb_ℤ (pos (bytes_used p)) target)) [
      | inl short ↦
          pad-Paginates window fuel target (with_cur p (emit (some nop) none p.cur)) q h
            (rw (pad-suc, short) at e)
      | inr enough ↦ of_ok (Paginates window) (rw (pad-suc, enough) at e) h
    ]

pad_to-Paginates :
    (window : ℕ) (target : ℤ) (p q : PagedAsm)
    → Paginates window p
    → pad_to target p ≡ ok q
    → Paginates window q
unfolding pad_to
pad_to-Paginates window target p q h e =
    let (_, _, e') = >>=-eq-ok (assert (leb_ℤ (pos (bytes_used p)) target)) _ e in
    pad-Paginates window _ target p q h e'

emit_trampoline-Paginates :
    (window : ℕ) (p q : PagedAsm)
    → Paginates window p
    → emit_trampoline p ≡ ok q
    → Paginates window q
emit_trampoline-Paginates window p q h e =
    let off = sub_ℕ p.load_base (addr p.cur) in
    let (_, _, e') =
      >>=-eq-ok (assert (eq_ℤ off (pos 0 -ℤ p.trampoline_offset))) _
        (sym (emit_trampoline-do p) ∙ e) in
    let (_, _, e'') = >>=-eq-ok (in_range 1048576 off) _ e' in of_ok (Paginates window) e'' h

assert_eq : (a b : ℕ) {u : Unit} → assert (a == b) ≡ ok u → a ≡ b
assert_eq a b e = ground arith

-- The page that is finished fills the window: the assertion.
finish_current_page-Paginates :
    (window : ℕ) (p q : PagedAsm)
    → Paginates window p
    → finish_current_page p ≡ ok q
    → Paginates window q
finish_current_page-Paginates window p q (same, count, all) e =
    let (words, _, e₁) = >>=-eq-ok (finalize p.cur) _ (sym (finish-do p) ∙ e) in
    let (bytes, _, e₂) = >>=-eq-ok (words_to_bytes words) _ e₁ in
    let (_, checked, e₃) = >>=-eq-ok (assert (length bytes == p.window_bytes)) _ e₂ in
    let full : length bytes ≡ window = assert_eq (length bytes) p.window_bytes checked ∙ same in
    of_ok (Paginates window) e₃ (
      same,
      omega (arith, count, length-append {0} p.pages (bytes ∷ [])),
      AllOfLength-snoc window p.pages bytes all full,
    )

close_page-Paginates :
    (window scratch : ℕ) (p q : PagedAsm)
    → Paginates window p
    → close_page scratch p ≡ ok q
    → Paginates window q
close_page-Paginates window scratch p q h e =
    let (_, _, e₁) =
      >>=-eq-ok (assert (eq_ℤ (pos (bytes_used p)) p.switch_offset)) _
        (sym (close-do scratch p) ∙ e) in
    let p₁ = with_cur p (emit (some (word (sw scratch 0 (pos p.flash_page_addr)))) none p.cur) in
    let (p₂, trampoline, e₂) = >>=-eq-ok (emit_trampoline p₁) _ e₁ in
    finish_current_page-Paginates window p₂ q (emit_trampoline-Paginates window p₁ p₂ h trampoline)
      e₂

switch_to-Paginates :
    (window : ℕ) (next : ℤ) (scratch_reg : Option ℕ) (p q : PagedAsm)
    → Paginates window p
    → switch_to next scratch_reg p ≡ ok q
    → Paginates window q
switch_to-Paginates window next scratch_reg p q h e =
    let scratch = scratch_or p scratch_reg in
    let (p₁, padded, e₁) =
      >>=-eq-ok (pad_to (p.switch_offset -ℤ pos 4) p) _
        (sym (switch_to-do next scratch_reg p) ∙ e) in
    close_page-Paginates window scratch
      (with_cur p₁ (emit (some (word (addi scratch 0 next))) none p₁.cur)) q
      (pad_to-Paginates window (p.switch_offset -ℤ pos 4) p p₁ h padded) e₁

switch_to_computed-Paginates :
    (window : ℕ) (scratch_reg : Option ℕ) (p q : PagedAsm)
    → Paginates window p
    → switch_to_computed scratch_reg p ≡ ok q
    → Paginates window q
switch_to_computed-Paginates window scratch_reg p q h e =
    let (p₁, padded, e₁) =
      >>=-eq-ok (pad_to p.switch_offset p) _ (sym (switch_to_computed-do scratch_reg p) ∙ e) in
    close_page-Paginates window (scratch_or p scratch_reg) p₁ q
      (pad_to-Paginates window p.switch_offset p p₁ h padded) e₁

module _ {load_base window_bytes flash_page_addr scratch : ℕ} where
  Reaches-Paginates :
      {p : PagedAsm}
      → Reaches load_base window_bytes flash_page_addr scratch p
      → Paginates window_bytes p
  unfolding paged_asm page finalize_last_page
  Reaches-Paginates (started {p} e) =
      let (cur, _, e') =
        >>=-eq-ok
          (if load_base == 0 then ok (asm load_base) else op (addi 0 0 (pos 0)) (asm load_base)) _
          e in
      of_ok (Paginates window_bytes) e' (refl, refl, tt)
  Reaches-Paginates (paged {p} {q} method h e) =
      let (cur, _, e') = >>=-eq-ok (method p.cur) _ e in
      of_ok (Paginates window_bytes) e' (Reaches-Paginates h)
  Reaches-Paginates (switched {p} {q} next scratch_reg h e) =
      switch_to-Paginates window_bytes next scratch_reg p q (Reaches-Paginates h) e
  Reaches-Paginates (computed {p} {q} scratch_reg h e) =
      switch_to_computed-Paginates window_bytes scratch_reg p q (Reaches-Paginates h) e
  Reaches-Paginates (ended {p} {q} scratch_reg h e) =
      switch_to-Paginates window_bytes (pos p.cur_page_num) scratch_reg p q (Reaches-Paginates h) e

-- However a script calls a paged assembler's methods, if no call raises: every finished page fills
-- the window, the number of the page under construction is the count of the finished ones, and the
-- image has the length of that many windows.
pub length-image :
    (load_base window_bytes flash_page_addr scratch : ℕ) (p : PagedAsm)
    → Reaches load_base window_bytes flash_page_addr scratch p
    → AllOfLength window_bytes p.pages
      × (p.cur_page_num ≡ length p.pages)
      × (length (image p) ≡ p.cur_page_num * window_bytes)
unfolding image
length-image load_base window_bytes flash_page_addr scratch p h =
    let (_, count, all) = Reaches-Paginates h in
    (all, count, length-flatten window_bytes p.pages all ∙ ap (λ n. n * window_bytes) (sym count))
