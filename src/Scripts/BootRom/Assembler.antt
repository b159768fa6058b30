-- ===== src/Scripts/BootRom/Assembler.antt =====
-- tools/build_boot_rom.py, the script's own `Asm`: an object, its methods, and `finalize`. The tuples of
-- `fixups` and the look-up of a label are as in tools/asm_pineapple.py.
pub mod Same
use agil_a.Common.{
  ℕ, ◌+◌, ◌*◌, Bool, Option, none, some, List, [], ◌∷◌, ◌++◌, String, Result, ok, err, value_error,
  ◌>>=◌, ◌>>◌, assert, length, set_item,
}
use agil_a.Common.Int.{ℤ, pos, mask, sub_ℕ}
use agil_a.Common.Bits.{◌<<<◌, ◌>>>◌, ◌|||◌, ◌&&&◌}
use agil_a.Asm.Encode.{op_imm, op_reg, op_load, op_store, op_branch, op_jal, op_jalr}
use agil_a.Asm.State.{Fixup, branch, jal, other, is_fresh}
use agil_a.Asm.Finalize.{label_at, in_range, all_words}

-- The fields of the script's `Asm`.
pub record Assembler : Type 0 where
  pub instrs : List (Option ℕ)
  pub labels : List (String × ℕ)
  pub fixups : List (ℕ × Fixup)

-- `Asm()`
abbrev pub assembler : Assembler
assembler = record { instrs = []; labels = []; fixups = [] }

-- The calls of the methods that a script makes.
pub data Call : Type 0 where
  add or : ℕ → ℕ → ℕ → Call
  addi andi ori slli srli lw lbu jalr : ℕ → ℕ → ℤ → Call
  sb sw : ℕ → ℕ → ℤ → Call
  label : String → Call
  beq bne blt : ℕ → ℕ → String → Call
  jal_to : ℕ → String → Call

-- `_s12`
unfoldable pub low12 : ℤ → ℕ
low12 v = mask 12 v

-- `_r`
unfoldable pub r_type : ℕ → ℕ → ℕ → ℕ → ℕ → ℕ → ℕ
r_type funct7 rs2 rs1 funct3 rd opcode =
    funct7 <<< 25 ||| rs2 <<< 20 ||| rs1 <<< 15 ||| funct3 <<< 12 ||| rd <<< 7 ||| opcode

-- `_i`
unfoldable pub i_type : ℤ → ℕ → ℕ → ℕ → ℕ → ℕ
unfolding low12
i_type imm rs1 funct3 rd opcode =
    low12 imm <<< 20 ||| rs1 <<< 15 ||| funct3 <<< 12 ||| rd <<< 7 ||| opcode

-- The word `w` of `SB` and of `SW`, by their funct3.
unfoldable pub s_type : ℕ → ℕ → ℕ → ℤ → ℕ
unfolding low12
s_type funct3 rs2 rs1 v =
    let imm = low12 v in
    imm >>> 5 <<< 25
    ||| rs2 <<< 20
    ||| rs1 <<< 15
    ||| funct3 <<< 12
    ||| (imm &&& 0x1F) <<< 7
    ||| op_store

unfoldable pub next_addr : Assembler → ℕ
next_addr a = length a.instrs * 4

unfoldable pub set_label : String → Assembler → Result Assembler
unfolding next_addr is_fresh
set_label name a = do
  assert (is_fresh name a.labels)
  ok (record a { labels = (name, next_addr a) ∷ a.labels })

-- `emit` of a word, and of a fixup.
unfoldable pub emit_word : ℕ → Assembler → Assembler
emit_word w a = record a { instrs = a.instrs ++ some w ∷ [] }

unfoldable pub emit_fixup : Fixup → Assembler → Assembler
emit_fixup fixup a = record a {
  instrs = a.instrs ++ none ∷ [];
  fixups = a.fixups ++ (length a.instrs, fixup) ∷ [];
}

-- One call.
unfoldable pub call : Call → Assembler → Result Assembler
unfolding r_type i_type s_type set_label emit_word emit_fixup
call (add rd rs1 rs2) a = ok (emit_word (r_type 0 rs2 rs1 0b000 rd op_reg) a)
call (or rd rs1 rs2) a = ok (emit_word (r_type 0 rs2 rs1 0b110 rd op_reg) a)
call (addi rd rs1 imm) a = ok (emit_word (i_type imm rs1 0b000 rd op_imm) a)
call (andi rd rs1 imm) a = ok (emit_word (i_type imm rs1 0b111 rd op_imm) a)
call (ori rd rs1 imm) a = ok (emit_word (i_type imm rs1 0b110 rd op_imm) a)
call (slli rd rs1 sh) a = ok (emit_word (i_type (pos (mask 5 sh)) rs1 0b001 rd op_imm) a)
call (srli rd rs1 sh) a = ok (emit_word (i_type (pos (mask 5 sh)) rs1 0b101 rd op_imm) a)
call (lw rd rs1 imm) a = ok (emit_word (i_type imm rs1 0b010 rd op_load) a)
call (lbu rd rs1 imm) a = ok (emit_word (i_type imm rs1 0b100 rd op_load) a)
call (jalr rd rs1 imm) a = ok (emit_word (i_type imm rs1 0b000 rd op_jalr) a)
call (sb rs2 rs1 imm) a = ok (emit_word (s_type 0b000 rs2 rs1 imm) a)
call (sw rs2 rs1 imm) a = ok (emit_word (s_type 0b010 rs2 rs1 imm) a)
call (label name) a = set_label name a
call (beq rs1 rs2 target) a = ok (emit_fixup (branch 0b000 rs1 rs2 target) a)
call (bne rs1 rs2 target) a = ok (emit_fixup (branch 0b001 rs1 rs2 target) a)
call (blt rs1 rs2 target) a = ok (emit_fixup (branch 0b100 rs1 rs2 target) a)
call (jal_to rd target) a = ok (emit_fixup (jal rd target) a)

-- A script's calls, in order.
unfoldable pub run : List Call → Assembler → Result Assembler
unfolding call
run [] a = ok a
run (c ∷ cs) a = call c a >>= run cs

-- `words[idx] = …` for a branch and for a JAL, from the offset.
unfoldable pub branch_bits : ℕ → ℕ → ℕ → ℤ → ℕ
branch_bits funct3 rs1 rs2 off =
    let imm = mask 13 off in
    let b12 = imm >>> 12 &&& 1 in
    let b10_5 = imm >>> 5 &&& 0x3F in
    let b4_1 = imm >>> 1 &&& 0xF in
    let b11 = imm >>> 11 &&& 1 in
    b12 <<< 31
    ||| b10_5 <<< 25
    ||| rs2 <<< 20
    ||| rs1 <<< 15
    ||| funct3 <<< 12
    ||| b4_1 <<< 8
    ||| b11 <<< 7
    ||| op_branch

unfoldable pub jal_bits : ℕ → ℤ → ℕ
jal_bits rd off =
    let imm = mask 21 off in
    let b20 = imm >>> 20 &&& 1 in
    let b10_1 = imm >>> 1 &&& 0x3FF in
    let b11 = imm >>> 11 &&& 1 in
    let b19_12 = imm >>> 12 &&& 0xFF in
    b20 <<< 31 ||| b10_1 <<< 21 ||| b11 <<< 20 ||| b19_12 <<< 12 ||| rd <<< 7 ||| op_jal

-- The body of the loop over `fixups`, before the store; and the loop.
unfoldable pub entry_word : List (String × ℕ) → ℕ → Fixup → Result ℕ
unfolding label_at branch_bits jal_bits
entry_word labels idx (branch funct3 rs1 rs2 target) = do
  at ← label_at target labels
  let off = sub_ℕ at (idx * 4)
  in_range 4096 off
  ok (branch_bits funct3 rs1 rs2 off)
entry_word labels idx (jal rd target) = do
  at ← label_at target labels
  let off = sub_ℕ at (idx * 4)
  in_range 1048576 off
  ok (jal_bits rd off)
entry_word labels idx (other kind) = err (value_error kind)

unfoldable pub fill_in :
    List (String × ℕ) → List (ℕ × Fixup) → List (Option ℕ) → Result (List (Option ℕ))
unfolding entry_word
fill_in labels [] words = ok words
fill_in labels ((idx, fixup) ∷ rest) words = entry_word labels idx fixup >>= λ w.
    set_item words idx (some w) >>= λ words'. fill_in labels rest words'

-- `finalize`
unfoldable pub finish : Assembler → Result (List ℕ)
unfolding fill_in all_words
finish a = fill_in a.labels a.fixups a.instrs >>= all_words
