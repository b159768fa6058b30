-- ===== src/Asm/State.antt =====
-- tools/asm_pineapple.py, the class `Asm`: the object, `addr`, `label`, `emit` and the methods that
-- leave a fixup. An entry `none` of `instrs` is a word that `finalize` has yet to fill in.
use text.Mathlib.Text.{◌==◌ as str_eq}
use agil_a.Common.{
  ℕ, ◌+◌, ◌*◌, Bool, true, false, Option, none, some, List, [], ◌∷◌, ◌++◌, String, Result, ok, ◌>>◌,
  assert, length, if◌then◌else◌,
}
use agil_a.Asm.Encode.{Instr, word}

-- The tuples that `emit` is given as `fixup`; any other kind makes `finalize` raise ValueError.
pub data Fixup : Type 0 where
  branch : ℕ → ℕ → ℕ → String → Fixup
  jal : ℕ → String → Fixup
  other : String → Fixup

-- The fields of `Asm`. `labels` is the dictionary, the label added last in front.
pub record Asm : Type 0 where
  pub instrs : List (Option ℕ)
  pub labels : List (String × ℕ)
  pub fixups : List (ℕ × Fixup)
  pub base : ℕ

-- `Asm(base)`
abbrev pub asm : ℕ → Asm
asm base = record { instrs = []; labels = []; fixups = []; base = base }

unfoldable pub addr : Asm → ℕ
addr a = a.base + length a.instrs * 4

-- `labels.get(name)`
unfoldable pub find_label : String → List (String × ℕ) → Option ℕ
find_label name [] = none
find_label name ((key, at) ∷ rest) = if str_eq key name then some at else find_label name rest

-- `name not in self.labels`
unfoldable pub is_fresh : String → List (String × ℕ) → Bool
unfolding find_label
is_fresh name labels = elim (find_label name labels) [ none ↦ true | some at ↦ false ]

unfoldable pub label : String → Asm → Result Asm
unfolding addr is_fresh
label name a = do
  assert (is_fresh name a.labels)
  ok (record a { labels = (name, addr a) ∷ a.labels })

-- `emit`, less the index that it returns, which no caller reads.
unfoldable pub emit : Option ℕ → Option Fixup → Asm → Asm
emit word_or_none none a = record a { instrs = a.instrs ++ word_or_none ∷ [] }
emit word_or_none (some fixup) a = record a {
  instrs = a.instrs ++ word_or_none ∷ [];
  fixups = a.fixups ++ (length a.instrs, fixup) ∷ [];
}

-- A method that emits one finished word.
unfoldable pub op : Instr → Asm → Result Asm
unfolding emit word
op i a = ok (emit (some (word i)) none a)

-- `_branch`
unfoldable pub branch_to : ℕ → ℕ → ℕ → String → Asm → Result Asm
unfolding emit
branch_to funct3 rs1 rs2 target a = ok (emit none (some (branch funct3 rs1 rs2 target)) a)

unfoldable pub beq : ℕ → ℕ → String → Asm → Result Asm
unfolding branch_to
beq rs1 rs2 target = branch_to 0b000 rs1 rs2 target

unfoldable pub bne : ℕ → ℕ → String → Asm → Result Asm
unfolding branch_to
bne rs1 rs2 target = branch_to 0b001 rs1 rs2 target

unfoldable pub blt : ℕ → ℕ → String → Asm → Result Asm
unfolding branch_to
blt rs1 rs2 target = branch_to 0b100 rs1 rs2 target

unfoldable pub bge : ℕ → ℕ → String → Asm → Result Asm
unfolding branch_to
bge rs1 rs2 target = branch_to 0b101 rs1 rs2 target

unfoldable pub bltu : ℕ → ℕ → String → Asm → Result Asm
unfolding branch_to
bltu rs1 rs2 target = branch_to 0b110 rs1 rs2 target

unfoldable pub bgeu : ℕ → ℕ → String → Asm → Result Asm
unfolding branch_to
bgeu rs1 rs2 target = branch_to 0b111 rs1 rs2 target

unfoldable pub jal_to : ℕ → String → Asm → Result Asm
unfolding emit
jal_to rd target a = ok (emit none (some (jal rd target)) a)
