-- ===== src/Core/Fsm/Progress.antt =====
-- The clocked core of src/rv32i_core.v goes on for as many instructions as one likes, when its memory is
-- ready again and again.
use agil_a.Common.{ℕ, zero, suc, ◌+◌, ◌≡◌, refl, ap, subst, ◌∙◌, false}
use agil_a.Core.Decode.{decode, is_ebreak}
use agil_a.Core.Exec.{Core, Bus, step}
use agil_a.Core.Fsm.{fetch, Fsm, core, World, Input, Cycles, still}
use agil_a.Core.Fsm.Rounds.{Waits, Cycles-trans, Cycles-step}

module _ {M : Type 0} (bus : Bus M) where
  -- Some steps, and that none of them is an EBREAK.
  abbrev pub after : ℕ → Core × M → Core × M
  after zero x = x
  after (suc n) x = after n (step bus x)

  abbrev pub IsPlain : ℕ → Core × M → Type 0
  IsPlain zero x = Unit
  IsPlain (suc n) x =
      (is_ebreak (decode (bus.read x.1 x.0.pc 2).0) ≡ false) × IsPlain n (step bus x)

  -- A core is in ST_FETCH with no access under way, from every clock on the memory is ready at some
  -- later one, and none of the next `n` instructions of Core.Exec is an EBREAK. Then the core comes to a
  -- clock at which it is in ST_FETCH again, with its pc, its registers and the memory those after the
  -- `n` instructions.
  pub Cycles-after :
      (inputs : ℕ → Input) (n t : ℕ) (s : Fsm) (w : World M)
      → ((t : ℕ) → (u : ℕ) × Waits inputs t u)
      → s.state ≡ fetch
      → s.mem_valid ≡ false
      → IsPlain n (core s, w.memory)
      → (u : ℕ) × (y : Fsm × World M) × Cycles bus inputs t (s, w) u y
        × (y.0.state ≡ fetch)
        × (after n (core s, w.memory) ≡ (core y.0, y.1.memory))
  Cycles-after inputs zero t s w fair here quiet plain = (t, (s, w), still, here, refl)
  Cycles-after inputs (suc n) t s w fair here quiet (whole, plain) =
      let (u, first) = fair (t + 1) in
      let (v, second) = fair (u + 3) in
      let (x, run, there, rests, stepped) =
        Cycles-step bus inputs t u v s w here quiet whole first second in
      let (z, y, later, ended, same) =
        Cycles-after inputs n (v + 1) x.0 x.1 fair there rests (subst (IsPlain n) stepped plain) in
      (z, y, Cycles-trans run later, ended, ap (after n) stepped ∙ same)
