-- ===== src/Asm/Finalize.antt =====
-- tools/asm_pineapple.py: `Asm.finalize`, which fills in the words that wait for a label.
pub mod Refines
pub mod Indices
pub mod Total
use agil_a.Common.{
  ℕ, zero, suc, ◌+◌, ◌-◌, ◌*◌, ◌^◌, ◌&&◌, Option, none, some, List, [], ◌∷◌, ◌++◌, String, Result,
  ok, err, assertion_error, key_error, value_error, overflow_error, ◌>>=◌, ◌>>◌, assert, set_item,
  ltb, if◌then◌else◌,
}
use agil_a.Common.Int.{ℤ, pos, neg, sub_ℕ, leb_ℤ, ltb_ℤ, is_even}
use agil_a.Common.Bits.{◌>>>◌, ◌&&&◌}
use agil_a.Asm.Encode.{branch_word, jal_word}
use agil_a.Asm.State.{Asm, Fixup, branch, jal, other, find_label}

-- `self.labels[target]`
unfoldable pub label_at : String → List (String × ℕ) → Result ℕ
unfolding find_label
label_at target labels = elim (find_label target labels) [
  | none ↦ err (key_error target)
  | some at ↦ ok at
]

-- The two `assert -limit <= off < limit and off % 2 == 0`.
abbrev pub in_range : ℕ → ℤ → Result (Unit {0})
in_range limit off = assert (leb_ℤ (neg limit) off && ltb_ℤ off (pos limit) && is_even off)

-- The word for the entry of `fixups` with index `idx`: the body of the loop, before the store.
unfoldable pub resolve : List (String × ℕ) → ℕ → ℕ → Fixup → Result ℕ
unfolding label_at branch_word jal_word
resolve labels base idx (branch funct3 rs1 rs2 target) = do
  at ← label_at target labels
  let off = sub_ℕ at (base + idx * 4)
  in_range 4096 off
  ok (branch_word funct3 rs1 rs2 off)
resolve labels base idx (jal rd target) = do
  at ← label_at target labels
  let off = sub_ℕ at (base + idx * 4)
  in_range 1048576 off
  ok (jal_word rd off)
resolve labels base idx (other kind) = err (value_error kind)

-- `for entry in self.fixups: … words[idx] = …`
unfoldable pub patch :
    List (String × ℕ) → ℕ → List (ℕ × Fixup) → List (Option ℕ) → Result (List (Option ℕ))
unfolding resolve
patch labels base [] words = ok words
patch labels base ((idx, fixup) ∷ rest) words = resolve labels base idx fixup >>= λ w.
    set_item words idx (some w) >>= λ words'. patch labels base rest words'

-- `assert all(w is not None for w in words)`, and the words themselves.
unfoldable pub all_words : List (Option ℕ) → Result (List ℕ)
all_words [] = ok []
all_words (none ∷ ws) = err assertion_error
all_words (some w ∷ ws) = all_words ws >>= λ rest. ok (w ∷ rest)

unfoldable pub finalize : Asm → Result (List ℕ)
unfolding patch all_words
finalize a = patch a.labels a.base a.fixups a.instrs >>= all_words
