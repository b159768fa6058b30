-- ===== src/Scripts/AluTest.antt =====
-- tools/build_alu_test.py: the program that exercises the instructions.
use agil_a.Common.{
  ℕ, ◌-◌, ◌++◌, List, Result, ok, ◌>>=◌, ◌>>◌, ◌>=>◌, assert, length, leb, replicate,
}
use agil_a.Common.Int.{pos, neg}
use agil_a.Asm.Encode.{
  addi, sub, sll, slt, sltu, lui, srl, sra, slti, sltiu, xori, srai, sh, lh, lhu, sb, lb, lbu,
  auipc,
}
use agil_a.Asm.State.{Asm, asm, op, label, bge, bltu, bgeu, jal_to}
use agil_a.Asm.Finalize.{finalize}
use agil_a.Asm.Bytes.{words_to_bytes}

abbrev ram_base : ℕ
ram_base = 0xC0

abbrev rom_bytes : ℕ
rom_bytes = 192

-- The arithmetic and memory instructions.
unfoldable pub alu_values : Asm → Result Asm
unfolding op
alu_values =
    op (addi 1 0 (pos 10))
    >=> op (addi 2 0 (pos 3))
    >=> op (sub 3 1 2)
    >=> op (addi 1 0 (pos 1))
    >=> op (addi 2 0 (pos 4))
    >=> op (sll 4 1 2)
    >=> op (addi 1 0 (neg 1))
    >=> op (addi 2 0 (pos 1))
    >=> op (slt 5 1 2)
    >=> op (sltu 6 1 2)
    >=> op (lui 1 (pos 0x80000))
    >=> op (addi 2 0 (pos 4))
    >=> op (srl 7 1 2)
    >=> op (sra 8 1 2)
    >=> op (addi 1 0 (neg 5))
    >=> op (slti 9 1 (pos 0))
    >=> op (sltiu 10 1 (pos 1))
    >=> op (addi 1 0 (pos 0xFF))
    >=> op (xori 11 1 (pos 0x0F))
    >=> op (lui 1 (pos 0x80000))
    >=> op (srai 12 1 (pos 4))
    >=> op (addi 1 0 (pos ram_base))
    >=> op (addi 2 0 (neg 1))
    >=> op (sh 2 1 (pos 0))
    >=> op (lh 13 1 (pos 0))
    >=> op (lhu 14 1 (pos 0))
    >=> op (addi 2 0 (neg 1))
    >=> op (sb 2 1 (pos 4))
    >=> op (lb 15 1 (pos 4))
    >=> op (lbu 16 1 (pos 4))

-- The branches, AUIPC and the final loop.
unfoldable pub alu_branches : Asm → Result Asm
unfolding op label bge bltu bgeu jal_to
alu_branches =
    op (addi 1 0 (neg 1))
    >=> op (addi 2 0 (pos 1))
    >=> op (addi 17 0 (pos 0))
    >=> bge 1 2 "SKIP1"
    >=> op (addi 17 0 (pos 111))
    >=> label "SKIP1"
    >=> op (addi 18 0 (pos 0))
    >=> bltu 1 2 "SKIP2"
    >=> op (addi 18 0 (pos 222))
    >=> label "SKIP2"
    >=> op (addi 19 0 (pos 0))
    >=> bgeu 1 2 "SKIP3"
    >=> op (addi 19 0 (pos 999))
    >=> label "SKIP3"
    >=> op (addi 19 19 (pos 333))
    >=> label "AUIPC_TEST"
    >=> op (auipc 20 (pos 0))
    >=> label "SPIN"
    >=> jal_to 0 "SPIN"

-- `padded`
unfoldable pub alu_test : Result (List ℕ)
unfolding alu_values alu_branches finalize words_to_bytes
alu_test = do
  prog_bytes ← (alu_values >=> alu_branches >=> finalize >=> words_to_bytes) (asm 0)
  assert (leb (length prog_bytes) rom_bytes)
  ok (prog_bytes ++ replicate (rom_bytes - length prog_bytes) 0)
