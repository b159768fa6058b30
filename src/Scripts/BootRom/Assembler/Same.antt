-- ===== src/Scripts/BootRom/Assembler/Same.antt =====
-- The `Asm` of tools/build_boot_rom.py against the one of tools/asm_pineapple.py.
use native.Mathlib.Nat.{zero-add}
use agil_a.Common.{
  ℕ, ◌≡◌, refl, sym, ap, ◌∙◌, Option, some, List, [], ◌∷◌, String, Result, ok, ◌>>=◌, assert,
  bind_assoc, bind_congr, set_item,
}
use agil_a.Asm.Encode.{
  word, branch_word, jal_word, add as add_word, or as or_word, addi as addi_word, andi as andi_word,
  ori as ori_word, slli as slli_word, srli as srli_word, lw as lw_word, lbu as lbu_word,
  jalr as jalr_word, sb as sb_word, sw as sw_word,
}
use agil_a.Asm.State.{
  Asm, Fixup, branch, jal, other, asm, op, addr, is_fresh, emit, branch_to, label as label_of,
  beq as beq_of, bne as bne_of, blt as blt_of, jal_to as jal_of,
}
use agil_a.Asm.Finalize.{resolve, patch, all_words, finalize}
use agil_a.Scripts.BootRom.Assembler.{
  Assembler, assembler, Call, add, or, addi, andi, ori, slli, srli, lw, lbu, jalr, sb, sw, label,
  beq, bne, blt, jal_to, next_addr, set_label, emit_word, emit_fixup, call, run, branch_bits,
  jal_bits, entry_word, fill_in, finish,
}

-- The same calls of the library's class.
unfoldable pub library_call : Call → Asm → Result Asm
unfolding op label_of beq_of bne_of blt_of jal_of
library_call (add rd rs1 rs2) = op (add_word rd rs1 rs2)
library_call (or rd rs1 rs2) = op (or_word rd rs1 rs2)
library_call (addi rd rs1 imm) = op (addi_word rd rs1 imm)
library_call (andi rd rs1 imm) = op (andi_word rd rs1 imm)
library_call (ori rd rs1 imm) = op (ori_word rd rs1 imm)
library_call (slli rd rs1 sh) = op (slli_word rd rs1 sh)
library_call (srli rd rs1 sh) = op (srli_word rd rs1 sh)
library_call (lw rd rs1 imm) = op (lw_word rd rs1 imm)
library_call (lbu rd rs1 imm) = op (lbu_word rd rs1 imm)
library_call (jalr rd rs1 imm) = op (jalr_word rd rs1 imm)
library_call (sb rs2 rs1 imm) = op (sb_word rs2 rs1 imm)
library_call (sw rs2 rs1 imm) = op (sw_word rs2 rs1 imm)
library_call (label name) = label_of name
library_call (beq rs1 rs2 target) = beq_of rs1 rs2 target
library_call (bne rs1 rs2 target) = bne_of rs1 rs2 target
library_call (blt rs1 rs2 target) = blt_of rs1 rs2 target
library_call (jal_to rd target) = jal_of rd target

unfoldable pub library_run : List Call → Asm → Result Asm
unfolding library_call
library_run [] a = ok a
library_run (c ∷ cs) a = library_call c a >>= library_run cs

-- The object of the library that holds the same, with the base 0.
abbrev as_asm : Assembler → Asm
as_asm a = record { instrs = a.instrs; labels = a.labels; fixups = a.fixups; base = 0 }

label_of-set_label :
    (name : String) (a : Assembler)
    → label_of name (as_asm a) ≡ (set_label name a >>= λ b. ok (as_asm b))
unfolding label_of set_label addr next_addr
label_of-set_label name a = rw zero-add (sym (bind_assoc (assert (is_fresh name a.labels)) _ _))

library_call-call :
    (c : Call) (a : Assembler) → library_call c (as_asm a) ≡ (call c a >>= λ b. ok (as_asm b))
unfolding library_call call op word emit branch_to emit_word emit_fixup set_label addr next_addr
library_call-call (add rd rs1 rs2) a = refl
library_call-call (or rd rs1 rs2) a = refl
library_call-call (addi rd rs1 imm) a = refl
library_call-call (andi rd rs1 imm) a = refl
library_call-call (ori rd rs1 imm) a = refl
library_call-call (slli rd rs1 sh) a = refl
library_call-call (srli rd rs1 sh) a = refl
library_call-call (lw rd rs1 imm) a = refl
library_call-call (lbu rd rs1 imm) a = refl
library_call-call (jalr rd rs1 imm) a = refl
library_call-call (sb rs2 rs1 imm) a = refl
library_call-call (sw rs2 rs1 imm) a = refl
library_call-call (label name) a = label_of-set_label name a
library_call-call (beq rs1 rs2 target) a = refl
library_call-call (bne rs1 rs2 target) a = refl
library_call-call (blt rs1 rs2 target) a = refl
library_call-call (jal_to rd target) a = refl

library_run-run :
    (cs : List Call) (a : Assembler) → library_run cs (as_asm a) ≡ (run cs a >>= λ b. ok (as_asm b))
unfolding library_run run
library_run-run [] a = refl
library_run-run (c ∷ cs) a = rw (library_call-call c a) (
    bind_assoc (call c a) _ _
    ∙ bind_congr (call c a) (library_run-run cs)
    ∙ sym (bind_assoc (call c a) _ _))

resolve-entry_word :
    (labels : List (String × ℕ)) (idx : ℕ) (fixup : Fixup)
    → resolve labels 0 idx fixup ≡ entry_word labels idx fixup
unfolding resolve entry_word branch_word jal_word branch_bits jal_bits
resolve-entry_word labels idx (branch funct3 rs1 rs2 target) = rw zero-add refl
resolve-entry_word labels idx (jal rd target) = rw zero-add refl
resolve-entry_word labels idx (other kind) = refl

patch-fill_in :
    (labels : List (String × ℕ)) (fixups : List (ℕ × Fixup)) (words : List (Option ℕ))
    → patch labels 0 fixups words ≡ fill_in labels fixups words
unfolding patch fill_in
patch-fill_in labels [] words = refl
patch-fill_in labels ((idx, fixup) ∷ rest) words = rw (resolve-entry_word labels idx fixup) (
    bind_congr (entry_word labels idx fixup)
      (λ w. bind_congr (set_item words idx (some w)) (patch-fill_in labels rest)))

-- For every sequence of calls, the script's own assembler gives the words, or raises the error, that
-- the assembler of tools/asm_pineapple.py with the base 0 gives or raises for the same calls.
pub run-library_run :
    (cs : List Call) → (run cs assembler >>= finish) ≡ (library_run cs (asm 0) >>= finalize)
unfolding finish finalize
run-library_run cs = rw (library_run-run cs assembler) (
    sym (
      bind_assoc (run cs assembler) _ _
      ∙ bind_congr (run cs assembler)
          (λ b. ap (λ r. r >>= all_words) (patch-fill_in b.labels b.fixups b.instrs))))
