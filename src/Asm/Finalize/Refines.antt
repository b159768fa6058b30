-- ===== src/Asm/Finalize/Refines.antt =====
-- `Asm.finalize` of tools/asm_pineapple.py against a one-pass reading of the program: the object
-- stands for a list of items, and `finalize` gives the words of the items in their places.
use mathlib.Core.List.{map-append}
use native.Mathlib.Nat.{add-zero, zero-add}
use agil_a.Common.{
  ℕ, suc, ◌+◌, ◌≡◌, refl, sym, ap, ◌∙◌, Option, none, some, List, [], ◌∷◌, ◌++◌, map, append_assoc,
  String, Result, ok, ◌>>=◌, bind_assoc, bind_congr, bind-ok, append-nil, of_ok, assert, >>=-eq-ok,
  set_item, length, length-append, set_item-append, arith,
}
use agil_a.Asm.Encode.{Instr, word}
use agil_a.Asm.State.{Asm, Fixup, branch, jal, asm, emit, op, branch_to, jal_to, label, is_fresh}
use agil_a.Asm.Finalize.{resolve, patch, all_words, finalize}

-- One emitted item: a finished word, or a fixup whose word is pending.
pub data Item : Type 0 where
  done : ℕ → Item
  pending : Fixup → Item

abbrev pub entry : Item → Option ℕ
entry (done w) = some w
entry (pending fixup) = none

-- The fixups of the items from index `idx` on.
abbrev pub pending_from : ℕ → List Item → List (ℕ × Fixup)
pending_from idx [] = []
pending_from idx (done w ∷ items) = pending_from (suc idx) items
pending_from idx (pending fixup ∷ items) = (idx, fixup) ∷ pending_from (suc idx) items

-- `a` holds exactly `items`.
abbrev pub Represents : Asm → List Item → Type 0
Represents a items = (a.instrs ≡ map entry items) × (a.fixups ≡ pending_from 0 items)

-- The specification: each item gives its word at its own index.
abbrev pub item_word : List (String × ℕ) → ℕ → ℕ → Item → Result ℕ
item_word labels base idx (done w) = ok w
item_word labels base idx (pending fixup) = resolve labels base idx fixup

abbrev pub assemble : List (String × ℕ) → ℕ → ℕ → List Item → Result (List ℕ)
assemble labels base idx [] = ok []
assemble labels base idx (item ∷ items) = item_word labels base idx item >>= λ w.
    assemble labels base (suc idx) items >>= λ ws. ok (w ∷ ws)

pending_from-append :
    (idx : ℕ) (xs ys : List Item)
    → pending_from idx (xs ++ ys) ≡ pending_from idx xs ++ pending_from (idx + length xs) ys
pending_from-append idx [] ys = rw add-zero
pending_from-append idx (done w ∷ xs) ys =
    let shift : suc idx + length xs ≡ idx + suc (length xs) = omega arith in
    rw (← shift) (pending_from-append (suc idx) xs ys)
pending_from-append idx (pending fixup ∷ xs) ys =
    let shift : suc idx + length xs ≡ idx + suc (length xs) = omega arith in
    rw (← shift) (ap (◌∷◌ (idx, fixup)) (pending_from-append (suc idx) xs ys))

length-map-entry : (items : List Item) → length (map entry items) ≡ length items
length-map-entry [] = refl
length-map-entry (item ∷ items) = ap suc (length-map-entry items)

all_words-some : (ws : List ℕ) → all_words (map some ws ++ []) ≡ ok (ws ++ [])
unfolding all_words
all_words-some [] = refl
all_words-some (w ∷ ws) = rw (all_words-some ws)

fill :
    (ws : List ℕ) (w : ℕ) (rest : List (Option ℕ))
    → map some (ws ++ w ∷ []) ++ rest ≡ map some ws ++ some w ∷ rest
fill [] w rest = refl
fill (v ∷ ws) w rest = ap (◌∷◌ (some v)) (fill ws w rest)

length-map-some : (ws : List ℕ) → length (map {B = Option ℕ} some ws) ≡ length ws
length-map-some [] = refl
length-map-some (w ∷ ws) = ap suc (length-map-some ws)

length-snoc : (ws : List ℕ) (w idx : ℕ) → length ws ≡ idx → length (ws ++ w ∷ []) ≡ suc idx
length-snoc ws w idx e = omega (arith, length-append {0} ws (w ∷ []))

module _ (labels : List (String × ℕ)) (base : ℕ) where
  -- What is left of `finalize` once the words before index `idx` are filled in with `ws`.
  abbrev Finishes : ℕ → List ℕ → List Item → Type 0
  Finishes idx ws items =
      (patch labels base (pending_from idx items) (map some ws ++ map entry items) >>= all_words)
      ≡ (assemble labels base idx items >>= λ vs. ok (ws ++ vs))

  advance :
      (idx : ℕ) (ws : List ℕ) (w : ℕ) (items : List Item)
      → Finishes (suc idx) (ws ++ w ∷ []) items
      → (patch labels base (pending_from (suc idx) items) (map some ws ++ some w ∷ map entry items)
          >>= all_words)
        ≡ ((assemble labels base (suc idx) items >>= λ us. ok (w ∷ us)) >>= λ vs. ok (ws ++ vs))
  advance idx ws w items h =
      rw (← fill ws w (map entry items), h, bind_assoc (assemble labels base (suc idx) items) _ _)
        (simp append_assoc)

  -- The store of one resolved word.
  store :
      (idx : ℕ) (ws : List ℕ) (fixup : Fixup) (items : List Item)
      → length ws ≡ idx
      → ((w : ℕ) → Finishes (suc idx) (ws ++ w ∷ []) items)
      → Finishes idx ws (pending fixup ∷ items)
  unfolding patch
  store idx ws fixup items e later =
      bind_assoc (resolve labels base idx fixup) _ _
      ∙ bind_congr (resolve labels base idx fixup) each
      ∙ sym (bind_assoc (resolve labels base idx fixup) _ _)
    where
      at :
          (w : ℕ)
          → set_item (map some ws ++ none ∷ map entry items) idx (some w)
            ≡ ok (map some ws ++ some w ∷ map entry items)
      at w =
          rw (← (length-map-some ws ∙ e))
            (set_item-append (map some ws) none (map entry items) (some w))

      each :
          (w : ℕ)
          → ((set_item (map some ws ++ none ∷ map entry items) idx (some w) >>= λ words.
                patch labels base (pending_from (suc idx) items) words)
              >>= all_words)
            ≡ ((assemble labels base (suc idx) items >>= λ us. ok (w ∷ us)) >>= λ vs. ok (ws ++ vs))
      each w = rw (at w) (advance idx ws w items (later w))

  finishes : (idx : ℕ) (ws : List ℕ) (items : List Item) → length ws ≡ idx → Finishes idx ws items
  unfolding patch
  finishes idx ws [] e = all_words-some ws
  finishes idx ws (done w ∷ items) e =
      advance idx ws w items (finishes (suc idx) (ws ++ w ∷ []) items (length-snoc ws w idx e))
  finishes idx ws (pending fixup ∷ items) e =
      store idx ws fixup items e
        (λ w. finishes (suc idx) (ws ++ w ∷ []) items (length-snoc ws w idx e))

-- `finalize` of an object that holds `items` gives the words of the items, or the first error.
pub finalize-assemble :
    (a : Asm) (items : List Item)
    → Represents a items
    → finalize a ≡ assemble a.labels a.base 0 items
unfolding finalize
finalize-assemble a items (e, f) =
    rw (e, f, finishes a.labels a.base 0 [] items refl) (bind-ok (assemble a.labels a.base 0 items))

-- The objects that the methods build from `Asm(base)`, with the items that they emit.
pub data Builds (base : ℕ) : Asm → List Item → Type 0 where
  start : Builds base (asm base) []
  one :
      {a b : Asm} {items : List Item} (i : Instr)
      → Builds base a items
      → op i a ≡ ok b
      → Builds base b (items ++ done (word i) ∷ [])
  branched :
      {a b : Asm} {items : List Item} (funct3 rs1 rs2 : ℕ) (target : String)
      → Builds base a items
      → branch_to funct3 rs1 rs2 target a ≡ ok b
      → Builds base b (items ++ pending (branch funct3 rs1 rs2 target) ∷ [])
  jumped :
      {a b : Asm} {items : List Item} (rd : ℕ) (target : String)
      → Builds base a items
      → jal_to rd target a ≡ ok b
      → Builds base b (items ++ pending (jal rd target) ∷ [])
  emitted :
      {a : Asm} {items : List Item} (w : ℕ)
      → Builds base a items
      → Builds base (emit (some w) none a) (items ++ done w ∷ [])
  labelled :
      {a b : Asm} {items : List Item} (name : String)
      → Builds base a items
      → label name a ≡ ok b
      → Builds base b items

-- What `emit` adds, for a finished word and for a fixup.
emit_done :
    (a : Asm) (items : List Item) (w : ℕ)
    → Represents a items
    → Represents (emit (some w) none a) (items ++ done w ∷ [])
unfolding emit
emit_done a items w (e, f) = (rw (map-append, e), rw (pending_from-append, append-nil, f))

emit_pending :
    (a : Asm) (items : List Item) (fixup : Fixup)
    → Represents a items
    → Represents (emit none (some fixup) a) (items ++ pending fixup ∷ [])
unfolding emit
emit_pending a items fixup (e, f) =
    (rw (map-append, e), rw (pending_from-append, f, e, length-map-entry, zero-add))

-- A built object holds its items, and keeps the base that it was made with.
pub Builds-Represents :
    {base : ℕ} {a : Asm} {items : List Item}
    → Builds base a items
    → Represents a items × (a.base ≡ base)
unfolding op branch_to jal_to label emit
Builds-Represents start = ((refl, refl), refl)
Builds-Represents {base} (one {a} {b} {items} i h e) =
    let (r, same) = Builds-Represents h in
    of_ok (λ b. Represents b (items ++ done (word i) ∷ []) × (b.base ≡ base)) e
      (emit_done a items (word i) r, same)
Builds-Represents {base} (branched {a} {b} {items} funct3 rs1 rs2 target h e) =
    let (r, same) = Builds-Represents h in
    of_ok
      (λ b. Represents b (items ++ pending (branch funct3 rs1 rs2 target) ∷ []) × (b.base ≡ base)) e
      (emit_pending a items (branch funct3 rs1 rs2 target) r, same)
Builds-Represents {base} (jumped {a} {b} {items} rd target h e) =
    let (r, same) = Builds-Represents h in
    of_ok (λ b. Represents b (items ++ pending (jal rd target) ∷ []) × (b.base ≡ base)) e
      (emit_pending a items (jal rd target) r, same)
Builds-Represents (emitted {a} {items} w h) =
    let (r, same) = Builds-Represents h in (emit_done a items w r, same)
Builds-Represents {base} (labelled {a} {b} {items} name h e) =
    let (_, _, e') = >>=-eq-ok (assert (is_fresh name a.labels)) _ e in
    of_ok (λ b. Represents b items × (b.base ≡ base)) e' (Builds-Represents h)

-- `finalize` of a program that the methods of `Asm(base)` built gives, item by item, the finished
-- words and the resolved fixups, each at its own index, or the error of the first fixup that
-- cannot be resolved.
pub finalize-Builds :
    (base : ℕ) (a : Asm) (items : List Item)
    → Builds base a items
    → finalize a ≡ assemble a.labels base 0 items
finalize-Builds base a items h =
    let (r, same) = Builds-Represents h in rw (← same) (finalize-assemble a items r)
