-- ===== src/Asm/Finalize/Indices.antt =====
-- `Asm.finalize` of tools/asm_pineapple.py: where each item's word stands.
use native.Mathlib.Nat.{add-zero, zero-add}
use agil_a.Common.{
  ℕ, zero, suc, ◌+◌, ◌≡◌, refl, sym, ap, subst, ◌∙◌, some, List, [], ◌∷◌, String, ok, of_ok,
  >>=-eq-ok, length, arith, get_elem?,
}
use agil_a.Asm.State.{Asm}
use agil_a.Asm.Finalize.{finalize}
use agil_a.Asm.Finalize.Refines.{Item, item_word, assemble, Builds, finalize-Builds}

-- The word of an item stands at the item's index.
nth-assemble :
    (labels : List (String × ℕ)) (base idx : ℕ) (items : List Item) (ws : List ℕ)
    → assemble labels base idx items ≡ ok ws
    → (i : ℕ) (item : Item) → get_elem? items i ≡ some item
    → (w : ℕ) × (get_elem? ws i ≡ some w) × (item_word labels base (idx + i) item ≡ ok w)
nth-assemble labels base idx [] ws h i item e = cc
nth-assemble labels base idx (x ∷ items) ws h zero item e =
    let (w, first, h') = >>=-eq-ok (item_word labels base idx x) _ h in
    let (vs, later, h'') = >>=-eq-ok (assemble labels base (suc idx) items) _ h' in
    let same : x ≡ item = cc in
    (
      w,
      of_ok (λ us. get_elem? us 0 ≡ some w) h'' refl,
      subst (λ z. item_word labels base (idx + 0) z ≡ ok w) same (rw add-zero first),
    )
nth-assemble labels base idx (x ∷ items) ws h (suc i) item e =
    let (v, first, h') = >>=-eq-ok (item_word labels base idx x) _ h in
    let (vs, later, h'') = >>=-eq-ok (assemble labels base (suc idx) items) _ h' in
    let (w, at, is) = nth-assemble labels base (suc idx) items vs later i item e in
    let shift : suc idx + i ≡ idx + suc i = omega arith in
    (w, of_ok (λ us. get_elem? us (suc i) ≡ some w) h'' at, rw (← shift) is)

length-assemble :
    (labels : List (String × ℕ)) (base idx : ℕ) (items : List Item) (ws : List ℕ)
    → assemble labels base idx items ≡ ok ws
    → length ws ≡ length items
length-assemble labels base idx [] ws h = of_ok (λ us. length us ≡ 0) h refl
length-assemble labels base idx (x ∷ items) ws h =
    let (v, first, h') = >>=-eq-ok (item_word labels base idx x) _ h in
    let (vs, later, h'') = >>=-eq-ok (assemble labels base (suc idx) items) _ h' in
    of_ok (λ us. length us ≡ suc (length items)) h''
      (ap suc (length-assemble labels base (suc idx) items vs later))

-- When `finalize` returns, there is one word for each item, and the word of the item at an index is
-- what the item gives there.
pub nth-finalize :
    (base : ℕ) (a : Asm) (items : List Item) (ws : List ℕ)
    → Builds base a items
    → finalize a ≡ ok ws
    → (length ws ≡ length items)
      × ((i : ℕ) (item : Item)
          → get_elem? items i ≡ some item
          → (w : ℕ) × (get_elem? ws i ≡ some w) × (item_word a.labels base i item ≡ ok w))
nth-finalize base a items ws built h =
    let all = sym (finalize-Builds base a items built) ∙ h in
    (
      length-assemble a.labels base 0 items ws all,
      λ i item e.
          let (w, at, is) = nth-assemble a.labels base 0 items ws all i item e in
          (w, at, rw zero-add at is),
    )
