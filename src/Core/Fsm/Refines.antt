-- ===== src/Core/Fsm/Refines.antt =====
-- The clocked core of src/rv32i_core.v refines the executions of Core.Exec: whatever the waits of the
-- memory are, what the core has done at an instruction's end is what Core.Exec does.
use agil_a.Common.{ℕ, suc, ◌≡◌, refl, subst, true, false, Bool, ◌⊎◌, inl, inr}
use agil_a.Core.Exec.{Core, Bus, step}
use agil_a.Core.Runs.{Runs, stop, next, running, Runs-trans}
use agil_a.Core.Fsm.{
  State, fetch, fetch_wait, decoding, executing, mem, mem_wait, wb, parked, Fsm, core, clock_in,
  reset, World, Input, access, cycle, Cycles, still, tick,
}
use agil_a.Core.Fsm.Invariant.{
  Inv, quietly, Inv-fetch, Inv-fetch_wait, Inv-decoding, Inv-executing, Inv-mem, Inv-mem_wait,
  Inv-wb,
}

module _ {M : Type 0} (bus : Bus M) (start : Core × M) where
  abbrev Reached : Core × M → Type 0
  Reached x = Runs bus start x

  turns : (x : Core × M) → Reached x → Reached (step bus x)
  turns x run = Runs-trans run (next stop)

  abbrev Follows : State → Fsm → World M → Type 0
  Follows st s w = Inv bus Reached Reached turns st s w

  -- Every clock keeps the invariant.
  Follows-clock :
      (st : State) (i : Input) (s : Fsm) (w : World M)
      → s.state ≡ st
      → Follows st s w
      → let s' = clock_in st i.ready w.rdata s in Follows s'.state s' (access bus i s w)
  unfolding clock_in
  Follows-clock fetch i s w here (run, quiet) = Inv-fetch bus Reached Reached turns i s w run quiet
  Follows-clock fetch_wait i s w here h =
      Inv-fetch_wait bus Reached Reached turns i.ready i.noise s w here h
  Follows-clock decoding i s w here h = Inv-decoding bus Reached Reached turns i s w h
  Follows-clock executing i s w here h = Inv-executing bus Reached Reached turns i s w h
  Follows-clock mem i s w here h = Inv-mem bus Reached Reached turns i s w h
  Follows-clock mem_wait i s w here h =
      Inv-mem_wait bus Reached Reached turns i.ready i.noise s w here h
  Follows-clock wb i s w here h = Inv-wb bus Reached Reached turns i s w h
  Follows-clock parked i s w here (run, quiet) =
      quietly bus Reached Reached turns i s w (Follows parked (clock_in parked i.ready w.rdata s))
        quiet (run, refl)

  Follows-cycle :
      (i : Input) (x : Fsm × World M)
      → Follows x.0.state x.0 x.1
      → let y = cycle bus i x in Follows y.0.state y.0 y.1
  unfolding cycle
  Follows-cycle i (s, w) h = Follows-clock s.state i s w refl h

  Follows-Cycles :
      (inputs : ℕ → Input) (t u : ℕ) (x y : Fsm × World M)
      → Cycles bus inputs t x u y
      → Follows x.0.state x.0 x.1
      → Follows y.0.state y.0 y.1
  Follows-Cycles inputs t u x y still h = h
  Follows-Cycles inputs t u x y (tick later) h =
      Follows-Cycles inputs (suc t) u (cycle bus (inputs t) x) y later
        (Follows-cycle (inputs t) x h)

-- `halted`
abbrev pub is_parked : State → Bool
is_parked parked = true
is_parked _ = false

-- A core is reset, and after some clocks, in which the memory makes it wait as it likes and drives
-- mem_rdata with anything except right behind a completed read, its state machine is in ST_FETCH or in
-- ST_HALTED. Then its pc and its registers, whether it is halted, and the memory are those that an
-- execution of Core.Exec from pc 0, with the registers and the memory of the reset, comes to.
pub Cycles-Runs :
    {M : Type 0} (bus : Bus M) (inputs : ℕ → Input) (u : ℕ) (s : Fsm) (w : World M) (s' : Fsm)
    (w' : World M)
    → Cycles bus inputs 0 (reset s, w) u (s', w')
    → (s'.state ≡ fetch) ⊎ (s'.state ≡ parked)
    → Runs bus
        (running 0 s.regs, w.memory)
        (record (core s') { halted = is_parked s'.state }, w'.memory)
Cycles-Runs {M} bus inputs u s w s' w' run ended =
    let start : Core × M = (running 0 s.regs, w.memory) in
    let held = Follows-Cycles bus start inputs 0 u (reset s, w) (s', w') run (stop, refl) in
    let at =
      λ (st : State) (here : s'.state ≡ st). subst (λ x. Follows bus start x s' w') here held in
    elim ended [ inl here ↦ rw here (at fetch here).0 | inr here ↦ rw here (at parked here).0 ]
