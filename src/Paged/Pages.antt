-- ===== src/Paged/Pages.antt =====
-- The pages that `switch_to` and `switch_to_computed` of tools/asm_pineapple.py finish.
use agil_a.Common.{
  ℕ, suc, ◌+◌, ◌-◌, ◌*◌, ◌^◌, ◌<◌, ◌≡◌, refl, sym, ap, ◌∙◌, arith, Option, none, some, List, [],
  ◌∷◌, ◌++◌, String, ok, true, ◌>>=◌, bind_assoc, eq→==, length, length-append, replicate,
}
use agil_a.Common.Int.{ℤ, pos, eq_ℤ, neg, ◌-ℤ◌}
use agil_a.Asm.Encode.{word, addi, sw}
use agil_a.Asm.Encode.Bounds.{addi-lt, sw-lt, jal_word-lt}
use agil_a.Asm.State.{Asm, emit}
use agil_a.Asm.Finalize.{finalize}
use agil_a.Asm.Finalize.Refines.{Item, assemble, Builds, finalize-Builds}
use agil_a.Asm.Finalize.Indices.{nth-finalize}
use agil_a.Asm.Finalize.Total.{Builds-Inv}
use agil_a.Asm.Bytes.Laws.{
  AllBelow, AllBelow-append, replicate-AllBelow, to_bytes, words_to_bytes-lt, length-to_bytes,
}
use agil_a.Paged.State.{
  PagedAsm, bytes_used, pad_to, close_page, switch_to, switch_to_computed, scratch_or,
}
use agil_a.Paged.Layout.{
  IsOpen, Holds, emit_all, finished, nop, closing, next_page, with_cur, emit_all-Builds, emit-Holds,
  bytes_used-Holds, emit_trampoline-word, finish-do, close-do,
}

assemble-finished :
    (labels : List (String × ℕ)) (base idx : ℕ) (items : List Item) (more : List ℕ)
    → assemble labels base idx (items ++ finished more)
      ≡ (assemble labels base idx items >>= λ ws. ok (ws ++ more))
assemble-finished labels base idx [] [] = refl
assemble-finished labels base idx [] (w ∷ more) =
    rw (assemble-finished labels base (suc idx) [] more)
assemble-finished labels base idx (x ∷ items) more =
    simp (assemble-finished labels base (suc idx) items more, bind_assoc)

emit_all-labels : (ws : List ℕ) (a : Asm) → (emit_all ws a).labels ≡ a.labels
unfolding emit
emit_all-labels [] a = refl
emit_all-labels (w ∷ ws) a = emit_all-labels ws (emit (some w) none a)

-- Finished words added at the end are added to what `finalize` returns.
finalize-emit_all :
    (base : ℕ) (a : Asm) (items : List Item) (ws more : List ℕ)
    → Builds base a items
    → finalize a ≡ ok ws
    → finalize (emit_all more a) ≡ ok (ws ++ more)
finalize-emit_all base a items ws more built h =
    finalize-Builds base (emit_all more a) (items ++ finished more)
      (emit_all-Builds base more a items built)
    ∙ ap (λ ls. assemble ls base 0 (items ++ finished more)) (emit_all-labels more a)
    ∙ assemble-finished a.labels base 0 items more
    ∙ ap (λ r. r >>= λ ws. ok (ws ++ more)) (sym (finalize-Builds base a items built) ∙ h)

-- A page whose code ends where the closing words begin.
close_page-words :
    (p : PagedAsm) (items : List Item) (ws : List ℕ) (scratch : ℕ)
    → IsOpen p items
    → finalize p.cur ≡ ok ws
    → AllBelow (2 ^ 32) ws
    → scratch < 32
    → length items * 4 + 8 ≡ p.window_bytes
    → close_page scratch p ≡ ok (next_page p (to_bytes (ws ++ closing p scratch)))
close_page-words p items ws scratch open_ h below hs full =
    let a = p.cur in
    let n = length items in
    let write = word (sw scratch 0 (pos p.flash_page_addr)) in
    let (count, same, within) = Builds-Inv open_.built in
    let holds : Holds p.load_base n a = (count, same) in
    let p₁ = with_cur p (emit (some write) none a) in
    let all = ws ++ closing p scratch in
    let below' : AllBelow (2 ^ 32) all = AllBelow-append (2 ^ 32) ws (closing p scratch) below (
      sw-lt scratch 0 (pos p.flash_page_addr) hs (omega arith),
      (jal_word-lt 0 (neg (p.window_bytes - 4)) (omega arith), tt),
    ) in
    let here : eq_ℤ (pos (bytes_used p)) p.switch_offset ≡ true =
      rw (bytes_used-Holds p p.load_base n holds, open_.switch_at)
        (eq→== (n * 4 + 0) (p.window_bytes - 8 + 0) (omega arith)) in
    let words : length ws ≡ n = (nth-finalize p.load_base a items ws open_.built h).0 in
    let size : length (to_bytes all) ≡ p.window_bytes =
      omega (arith, length-to_bytes all, length-append {0} ws (closing p scratch), words) in
    rw
      (
        close-do,
        here,
        emit_trampoline-word p₁ (suc n) (emit-Holds p.load_base n write a holds) (omega arith)
            open_.near open_.trampoline_at,
        finish-do,
        finalize-emit_all p.load_base a items ws (closing p scratch) open_.built h,
        words_to_bytes-lt all below',
        eq→== (length (to_bytes all)) p.window_bytes size,
      )
      refl

length-finished : (ws : List ℕ) → length (finished ws) ≡ length ws
length-finished [] = refl
length-finished (w ∷ ws) = ap suc (length-finished ws)

pub emit_all-append :
    (xs ys : List ℕ) (a : Asm) → emit_all (xs ++ ys) a ≡ emit_all ys (emit_all xs a)
emit_all-append [] ys a = refl
emit_all-append (x ∷ xs) ys a = emit_all-append xs ys (emit (some x) none a)

-- Finished words keep the page under construction.
IsOpen-emit_all :
    (p : PagedAsm) (items : List Item) (more : List ℕ)
    → IsOpen p items
    → IsOpen (with_cur p (emit_all more p.cur)) (items ++ finished more)
IsOpen-emit_all p items more open_ = record {
  room = open_.room;
  aligned = open_.aligned;
  near = open_.near;
  switch_at = open_.switch_at;
  trampoline_at = open_.trampoline_at;
  built = emit_all-Builds p.load_base more p.cur items open_.built;
}

-- The same behind further finished words that reach the place of the closing words.
pub close_page-emit_all :
    (p : PagedAsm) (items : List Item) (ws more : List ℕ) (scratch : ℕ)
    → IsOpen p items
    → finalize p.cur ≡ ok ws
    → AllBelow (2 ^ 32) ws
    → AllBelow (2 ^ 32) more
    → scratch < 32
    → (length items + length more) * 4 + 8 ≡ p.window_bytes
    → close_page scratch (with_cur p (emit_all more p.cur))
      ≡ ok (next_page p (to_bytes ((ws ++ more) ++ closing p scratch)))
close_page-emit_all p items ws more scratch open_ h below below' hs full =
    close_page-words (with_cur p (emit_all more p.cur)) (items ++ finished more) (ws ++ more)
      scratch (IsOpen-emit_all p items more open_)
      (finalize-emit_all p.load_base p.cur items ws more open_.built h)
      (AllBelow-append (2 ^ 32) ws more below below') hs
      (omega (arith, length-append {0} items (finished more), length-finished more))

-- The NOPs behind the code when the closing words begin at `end` words.
abbrev pub padding : ℕ → List Item → List ℕ
padding end items = replicate (end - length items) nop

pub padding-AllBelow : (end : ℕ) (items : List Item) → AllBelow (2 ^ 32) (padding end items)
padding-AllBelow end items =
    replicate-AllBelow (2 ^ 32) (end - length items) nop
      (addi-lt 0 0 (pos 0) (omega arith) (omega arith))

pub switch_to_computed-do :
    (scratch_reg : Option ℕ) (p : PagedAsm)
    → switch_to_computed scratch_reg p
      ≡ (pad_to p.switch_offset p >>= close_page (scratch_or p scratch_reg))
unfolding switch_to_computed
switch_to_computed-do scratch_reg p = refl

pub switch_to-do :
    (next : ℤ) (scratch_reg : Option ℕ) (p : PagedAsm)
    → let scratch = scratch_or p scratch_reg in
      switch_to next scratch_reg p ≡ (
        pad_to (p.switch_offset -ℤ pos 4) p >>= λ p₁.
        close_page scratch (with_cur p₁ (emit (some (word (addi scratch 0 next))) none p₁.cur)))
unfolding switch_to
switch_to-do next scratch_reg p = refl
