-- ===== src/Core/Fsm/Examples.antt =====
-- The clocked core of src/rv32i_core.v on a memory that makes it wait for its first word.
use agil_a.Common.{
  ℕ, zero, suc, ◌+◌, ◌≡◌, refl, subst, arith, true, false, inl, ◌==◌, leb, if◌then◌else◌,
}
use agil_a.Common.Int.{neg}
use agil_a.Asm.Encode.{addi, word}
use agil_a.Core.Exec.{Bus, step, exec, exec_fields, alu_y, next_pc, reg}
use agil_a.Core.Alu.{alu, alu_op}
use agil_a.Core.Decode.{decode, is_ebreak}
use agil_a.Core.Runs.{Runs, running}
use agil_a.Core.Fsm.{
  fetch, parked, Fsm, core, reset, World, Input, cycle, clock_in, access, wb_regs, Cycles, still,
  tick,
}
use agil_a.Core.Fsm.Refines.{is_parked, Cycles-Runs}
use agil_a.Core.Fsm.Progress.{after, Cycles-after}
use agil_a.Core.Fsm.Rounds.{Waits, now, not_yet, Cycles-step}

-- A memory that holds a word at each address, ready from the clock 3 on.
abbrev words_bus : Bus (ℕ → ℕ)
words_bus = record {
  read = λ m at size. (m at, m);
  write = λ m at size v. λ b. if b == at then v else m b;
}

abbrev slow : ℕ → Input
slow t = record { ready = leb 3 t; noise = 99 }

abbrev powered : Fsm
powered = record {
  state = parked;
  pc = 200;
  regs = λ r. 7;
  ir = 1;
  alu_result = 2;
  next = 3;
  mem_addr = 4;
  mem_wdata = 5;
  size = 1;
  mem_we = true;
  mem_valid = true;
}

abbrev decrements : World (ℕ → ℕ)
decrements = record { memory = λ at. word (addi 5 5 (neg 1)); rdata = 98 }

-- Some clocks.
abbrev clocks : ℕ → ℕ → Fsm × World (ℕ → ℕ) → Fsm × World (ℕ → ℕ)
clocks zero t x = x
clocks (suc n) t x = clocks n (suc t) (cycle words_bus (slow t) x)

clocks-Cycles :
    (n t : ℕ) (x : Fsm × World (ℕ → ℕ)) → Cycles words_bus slow t x (n + t) (clocks n t x)
clocks-Cycles zero t x = subst (λ u. Cycles words_bus slow t x u x) (omega arith) still
clocks-Cycles (suc n) t x = tick (
    subst (λ u. Cycles words_bus slow (suc t) (cycle words_bus (slow t) x) u (clocks (suc n) t x))
      (omega arith) (clocks-Cycles n (suc t) (cycle words_bus (slow t) x)))

abbrev ninth : Fsm × World (ℕ → ℕ)
ninth = clocks 9 0 (reset powered, decrements)

-- The ninth clock is back in ST_FETCH, with x5 one less.
ninth_test : (ninth.0.state ≡ fetch) × (ninth.0.pc ≡ 4) × (ninth.0.regs 5 ≡ 6)
unfolding cycle word clock_in access decode is_ebreak alu_y next_pc wb_regs alu alu_op reg
ninth_test = (refl, refl, refl)

Cycles-Runs_example :
    Runs words_bus
      (running 0 (λ r. 7), decrements.memory)
      (record (core ninth.0) { halted = is_parked ninth.0.state }, ninth.1.memory)
Cycles-Runs_example =
    Cycles-Runs words_bus slow 9 powered decrements ninth.0 ninth.1
      (clocks-Cycles 9 0 (reset powered, decrements)) (inl ninth_test.0)

Cycles-step_example :
    (y : Fsm × World (ℕ → ℕ)) × Cycles words_bus slow 0 (reset powered, decrements) 9 y
    × (y.0.state ≡ fetch)
    × (y.0.mem_valid ≡ false)
    × (step words_bus (running 0 (λ r. 7), decrements.memory) ≡ (core y.0, y.1.memory))
unfolding word is_ebreak decode
Cycles-step_example =
    Cycles-step words_bus slow 0 4 8 (reset powered) decrements refl refl refl
      (not_yet refl (not_yet refl (now refl))) (now refl)

slow-Waits : (t : ℕ) → (u : ℕ) × Waits slow t u
slow-Waits zero = (4, not_yet refl (not_yet refl (not_yet refl (now refl))))
slow-Waits (suc zero) = (4, not_yet refl (not_yet refl (now refl)))
slow-Waits (suc (suc zero)) = (4, not_yet refl (now refl))
slow-Waits (suc (suc (suc t))) = (suc (suc (suc (suc t))), now (ground arith))

Cycles-after_example :
    (u : ℕ) × (y : Fsm × World (ℕ → ℕ)) × Cycles words_bus slow 0 (reset powered, decrements) u y
    × (y.0.state ≡ fetch)
    × (after words_bus 2 (running 0 (λ r. 7), decrements.memory) ≡ (core y.0, y.1.memory))
unfolding word is_ebreak decode step exec exec_fields
Cycles-after_example =
    Cycles-after words_bus slow 2 0 (reset powered) decrements slow-Waits refl refl
      (refl, (refl, tt))
