-- ===== src/Asm/Finalize/Total.antt =====
-- When `Asm.finalize` of tools/asm_pineapple.py returns: programs of at most 1023 words whose labels
-- are all defined.
use text.Mathlib.Text.{◌==◌ as str_eq}
use agil_a.Common.{
  ℕ, suc, ◌+◌, ◌*◌, ◌≤◌, ◌<◌, ◌≡◌, refl, sym, ap, ◌∙◌, arith, Option, some, none, List, [], ◌∷◌,
  ◌++◌, String, ok, >>=-eq-ok, assert, of_ok, length, length-append, Bool-cases, inl, inr,
}
use agil_a.Common.Int.{sub_ℕ}
use agil_a.Asm.Encode.{word, branch_word, jal_word}
use agil_a.Asm.State.{
  Asm, Fixup, branch, jal, other, find_label, label, is_fresh, addr, op, emit, branch_to, jal_to,
}
use agil_a.Asm.Finalize.{resolve, label_at, in_range, finalize}
use agil_a.Asm.Finalize.Refines.{
  Item, done, pending, assemble, Builds, start, one, branched, jumped, emitted, labelled,
  finalize-Builds,
}
use agil_a.Asm.Finalize.Indices.{nth-finalize}

-- Every label stands at a word's boundary, from the base up to the end of `n` words.
abbrev pub AreWithin : ℕ → ℕ → List (String × ℕ) → Type 0
AreWithin base n [] = Unit
AreWithin base n ((name, at) ∷ rest) =
    ((k : ℕ) × (k ≤ n) × (at ≡ base + k * 4)) × AreWithin base n rest

AreWithin-le :
    (base n m : ℕ) (labels : List (String × ℕ))
    → n ≤ m
    → AreWithin base n labels
    → AreWithin base m labels
AreWithin-le base n m [] h w = tt
AreWithin-le base n m ((name, at) ∷ rest) h ((k, le, e), w) =
    ((k, omega arith, e), AreWithin-le base n m rest h w)

-- What the methods keep: the count of words, the base, and where the labels stand.
abbrev pub Inv : ℕ → Asm → List Item → Type 0
Inv base a items =
    (length a.instrs ≡ length items) × (a.base ≡ base) × AreWithin base (length items) a.labels

pub length-snoc {ℓ} : {A : Type ℓ} (xs : List A) (x : A) → length (xs ++ x ∷ []) ≡ suc (length xs)
length-snoc xs x = omega (arith, length-append {ℓ} xs (x ∷ []))

Inv-snoc :
    (base : ℕ) (a b : Asm) (items : List Item) (item : Item) (x : Option ℕ)
    → Inv base a items
    → b.instrs ≡ a.instrs ++ x ∷ []
    → b.base ≡ a.base
    → b.labels ≡ a.labels
    → Inv base b (items ++ item ∷ [])
Inv-snoc base a b items item x (n, e, w) hi hb hl =
    let longer = length-snoc items item in
    (
      ap length hi ∙ length-snoc a.instrs x ∙ ap suc n ∙ sym longer,
      hb ∙ e,
      rw (hl, longer)
          (AreWithin-le base (length items) (suc (length items)) a.labels (omega arith) w),
    )

-- The methods keep it.
pub Builds-Inv : {base : ℕ} {a : Asm} {items : List Item} → Builds base a items → Inv base a items
unfolding op branch_to jal_to label addr emit
Builds-Inv start = (refl, refl, tt)
Builds-Inv {base} (one {a} {b} {items} i h e) =
    of_ok (λ b. Inv base b (items ++ done (word i) ∷ [])) e
      (Inv-snoc base a (emit (some (word i)) none a) items (done (word i)) (some (word i))
        (Builds-Inv h) refl refl refl)
Builds-Inv {base} (branched {a} {b} {items} funct3 rs1 rs2 target h e) =
    let f = branch funct3 rs1 rs2 target in
    of_ok (λ b. Inv base b (items ++ pending f ∷ [])) e
      (Inv-snoc base a (emit none (some f) a) items (pending f) none (Builds-Inv h) refl refl refl)
Builds-Inv {base} (jumped {a} {b} {items} rd target h e) =
    let f = jal rd target in
    of_ok (λ b. Inv base b (items ++ pending f ∷ [])) e
      (Inv-snoc base a (emit none (some f) a) items (pending f) none (Builds-Inv h) refl refl refl)
Builds-Inv {base} (emitted {a} {items} w h) =
    Inv-snoc base a (emit (some w) none a) items (done w) (some w) (Builds-Inv h) refl refl refl
Builds-Inv {base} (labelled {a} {b} {items} name h e) =
    let (n, same, w) = Builds-Inv h in
    let (_, _, e') = >>=-eq-ok (assert (is_fresh name a.labels)) _ e in
    of_ok (λ b. Inv base b items) e'
      (n, same, ((length items, omega arith, omega (arith, n, same)), w))

find_label-within :
    (base n : ℕ) (target : String) (labels : List (String × ℕ)) (at : ℕ)
    → AreWithin base n labels
    → find_label target labels ≡ some at
    → (k : ℕ) × (k ≤ n) × (at ≡ base + k * 4)
unfolding find_label
find_label-within base n target [] at w h = cc
find_label-within base n target ((name, here) ∷ rest) at ((k, le, e), w) h =
    elim (Bool-cases (str_eq name target)) [
      | inl same ↦
          let found : some here ≡ some at = rw same at h in
          let is : here ≡ at = cc in (k, le, sym is ∙ e)
      | inr differs ↦ find_label-within base n target rest at w (rw differs at h)
    ]

-- An offset of at most 1023 words either way passes both assertions.
in_range_near :
    (base k idx : ℕ)
    → k < 1024
    → idx < 1024
    → (in_range 4096 (sub_ℕ (base + k * 4) (base + idx * 4)) ≡ ok tt)
      × (in_range 1048576 (sub_ℕ (base + k * 4) (base + idx * 4)) ≡ ok tt)
in_range_near base k idx hk hi = (ground arith, ground arith)

-- The label that a fixup names is in the dictionary.
abbrev pub HasLabel : List (String × ℕ) → Fixup → Type 0
HasLabel labels (branch funct3 rs1 rs2 target) = (at : ℕ) × (find_label target labels ≡ some at)
HasLabel labels (jal rd target) = (at : ℕ) × (find_label target labels ≡ some at)
HasLabel labels (other kind) = ⊥

abbrev pub HaveLabels : List (String × ℕ) → List Item → Type 0
HaveLabels labels [] = Unit
HaveLabels labels (done w ∷ items) = HaveLabels labels items
HaveLabels labels (pending fixup ∷ items) = HasLabel labels fixup × HaveLabels labels items

resolve_total :
    (labels : List (String × ℕ)) (base n idx : ℕ) (fixup : Fixup)
    → AreWithin base n labels
    → n < 1024
    → idx < 1024
    → HasLabel labels fixup
    → (w : ℕ) × (resolve labels base idx fixup ≡ ok w)
unfolding resolve
resolve_total labels base n idx (branch funct3 rs1 rs2 target) within hn hi (at, found) =
    let (k, le, e) = find_label-within base n target labels at within found in
    (
      branch_word funct3 rs1 rs2 (sub_ℕ (base + k * 4) (base + idx * 4)),
      rw (label_at, found, e, (in_range_near base k idx (omega arith) hi).0),
    )
resolve_total labels base n idx (jal rd target) within hn hi (at, found) =
    let (k, le, e) = find_label-within base n target labels at within found in
    (
      jal_word rd (sub_ℕ (base + k * 4) (base + idx * 4)),
      rw (label_at, found, e, (in_range_near base k idx (omega arith) hi).1),
    )
resolve_total labels base n idx (other kind) within hn hi h = absurd h

assemble_total :
    (labels : List (String × ℕ)) (base n idx : ℕ) (items : List Item)
    → AreWithin base n labels
    → n < 1024
    → idx + length items ≤ n
    → HaveLabels labels items
    → (ws : List ℕ) × (assemble labels base idx items ≡ ok ws)
assemble_total labels base n idx [] within hn le have = ([], refl)
assemble_total labels base n idx (done w ∷ items) within hn le have =
    let (ws, e) = assemble_total labels base n (suc idx) items within hn (omega arith) have in
    (w ∷ ws, rw e)
assemble_total labels base n idx (pending fixup ∷ items) within hn le (has, have) =
    let (ws, e) = assemble_total labels base n (suc idx) items within hn (omega arith) have in
    let (w, r) = resolve_total labels base n idx fixup within hn (omega arith) has in
    (w ∷ ws, rw (r, e))

-- A program of at most 1023 words, built by the methods, whose branches and jumps all name labels
-- that were set: `finalize` returns, with one word for each item. No assertion fails, no key is
-- missing and no word is left open.
pub finalize_total :
    (base : ℕ) (a : Asm) (items : List Item)
    → Builds base a items
    → length items < 1024
    → HaveLabels a.labels items
    → (ws : List ℕ) × (finalize a ≡ ok ws) × (length ws ≡ length items)
finalize_total base a items built short have =
    let (n, same, within) = Builds-Inv built in
    let (ws, e) =
      assemble_total a.labels base (length items) 0 items within short (omega arith) have in
    let returned : finalize a ≡ ok ws = finalize-Builds base a items built ∙ e in
    (ws, returned, (nth-finalize base a items ws built returned).0)
