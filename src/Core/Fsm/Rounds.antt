-- ===== src/Core/Fsm/Rounds.antt =====
-- How many clocks an instruction of src/rv32i_core.v takes, by the clocks in which the memory makes it wait.
use agil_a.Common.{
  ℕ, suc, ◌+◌, ◌≡◌, refl, sym, ap, arith, subst, ◌∙◌, true, false, ◌==◌, if◌then◌else◌,
}
use agil_a.Core.Decode.{decode, is_ebreak}
use agil_a.Core.Exec.{Core, Bus, step, alu_y, next_pc}
use agil_a.Core.Invariant.{either}
use agil_a.Asm.Encode.{op_load, op_store}
use agil_a.Core.Fsm.{
  State, fetch, fetch_wait, decoding, executing, mem, mem_wait, wb, parked, Fsm, core, clock_in,
  World, Input, access, cycle, Cycles, still, tick,
}
use agil_a.Core.Fsm.Invariant.{
  Inv, Inv-fetch, Inv-fetch_wait, Inv-decoding, Inv-executing, Inv-mem, Inv-mem_wait, Inv-wb,
}

-- From `t` on the memory is first ready in the clock before `u`.
pub data Waits (inputs : ℕ → Input) : ℕ → ℕ → Type 0 where
  now : {t : ℕ} → (inputs t).ready ≡ true → Waits inputs t (suc t)
  not_yet : {t u : ℕ} → (inputs t).ready ≡ false → Waits inputs (suc t) u → Waits inputs t u

module _ {M : Type 0} {bus : Bus M} {inputs : ℕ → Input} where
  pub Cycles-trans :
      {t u v : ℕ} {x y z : Fsm × World M}
      → Cycles bus inputs t x u y
      → Cycles bus inputs u y v z
      → Cycles bus inputs t x v z
  Cycles-trans still later = later
  Cycles-trans (tick first) later = tick (Cycles-trans first later)

module _ {M : Type 0} (bus : Bus M) (inputs : ℕ → Input) (P Q : Core × M → Type 0)
    (turns : (x : Core × M) → P x → Q (step bus x)) where
  abbrev pub At : State → Fsm × World M → Type 0
  At st x = (x.0.state ≡ st) × Inv bus P Q turns st x.0 x.1

  -- In the clocks from `t` to `u`, to a state.
  abbrev pub Leads : ℕ → Fsm × World M → ℕ → State → Type 0
  Leads t x u st = (y : Fsm × World M) × Cycles bus inputs t x u y × At st y

  in_turn :
      (t u v : ℕ) (st st' : State) (x : Fsm × World M)
      → Leads t x u st
      → ((y : Fsm × World M) → At st y → Leads u y v st')
      → Leads t x v st'
  in_turn t u v st st' x (y, first, at) later =
      let (z, rest, there) = later y at in (z, Cycles-trans first rest, there)

  -- One clock in a state.
  one :
      (t : ℕ) (st st' : State) (s : Fsm) (w : World M)
      → s.state ≡ st
      → At st' (clock_in st (inputs t).ready w.rdata s, access bus (inputs t) s w)
      → Leads t (s, w) (suc t) st'
  unfolding cycle
  one t st st' s w here h =
      subst
        (λ x.
          At st' (clock_in x (inputs t).ready w.rdata s, access bus (inputs t) s w)
          → (y : Fsm × World M) × Cycles bus inputs t (s, w) (suc t) y × At st' y)
        here (λ later. (cycle bus (inputs t) (s, w), tick still, later)) h

  -- A state that waits for the memory, and goes on when it is ready.
  waits :
      (st st' : State)
      → ((noise : ℕ) (s : Fsm) (w : World M)
          → At st (s, w)
          → At st'
              (clock_in st true w.rdata s, access bus (record { ready = true; noise = noise }) s w))
      → ((noise : ℕ) (s : Fsm) (w : World M)
          → At st (s, w)
          → At st (
            clock_in st false w.rdata s,
            access bus (record { ready = false; noise = noise }) s w,
          ))
      → (t u : ℕ) (s : Fsm) (w : World M) → Waits inputs t u
      → At st (s, w)
      → Leads t (s, w) u st'
  waits st st' wakes sleeps t u s w (now is) (here, h) =
      let noise = (inputs t).noise in
      one t st st' s w here (
        subst
          (λ b.
            At st' (clock_in st b w.rdata s, access bus (record { ready = b; noise = noise }) s w))
          (sym is) (wakes noise s w (here, h)))
  waits st st' wakes sleeps t u s w (not_yet is later) (here, h) =
      let noise = (inputs t).noise in
      let (x, first, there) = one t st st s w here (
        subst
          (λ b.
            At st (clock_in st b w.rdata s, access bus (record { ready = b; noise = noise }) s w))
          (sym is) (sleeps noise s w (here, h))) in
      let (y, rest, at) = waits st st' wakes sleeps (suc t) u x.0 x.1 later there in
      (y, Cycles-trans first rest, at)

  fetch-Waits :
      (t u : ℕ) (s : Fsm) (w : World M)
      → Waits inputs t u
      → At fetch_wait (s, w)
      → Leads t (s, w) u decoding
  unfolding clock_in
  fetch-Waits =
      waits fetch_wait decoding
        (λ noise s w (here, h). (refl, Inv-fetch_wait bus P Q turns true noise s w here h))
        (λ noise s w (here, h). (
          here,
          subst
              (λ st.
                Inv bus P Q turns st s (access bus (record { ready = false; noise = noise }) s w))
              here (Inv-fetch_wait bus P Q turns false noise s w here h),
        ))

  mem-Waits :
      (t u : ℕ) (s : Fsm) (w : World M)
      → Waits inputs t u
      → At mem_wait (s, w)
      → Leads t (s, w) u wb
  unfolding clock_in
  mem-Waits =
      waits mem_wait wb
        (λ noise s w (here, h). (refl, Inv-mem_wait bus P Q turns true noise s w here h))
        (λ noise s w (here, h). (
          here,
          subst
              (λ st.
                Inv bus P Q turns st s (access bus (record { ready = false; noise = noise }) s w))
              here (Inv-mem_wait bus P Q turns false noise s w here h),
        ))

  -- The states behind ST_EXEC and ST_MEM.
  executing-goes_on :
      (i : Input) (s : Fsm) (w : World M)
      → is_ebreak (decode s.ir) ≡ false
      → Inv bus P Q turns executing s w
      → At mem (clock_in executing i.ready w.rdata s, access bus i s w)
  unfolding clock_in
  executing-goes_on i s w whole h =
      let there : (clock_in executing i.ready w.rdata s).state ≡ mem =
        ap
          (λ b.
            (if b
              then record s { mem_we = false; mem_valid = false; state = parked }
              else record s {
                alu_result = alu_y (decode s.ir) (core s);
                next = next_pc (decode s.ir) (core s);
                state = mem;
              }).state)
          whole in
      (
        there,
        subst (λ st. Inv bus P Q turns st (clock_in executing i.ready w.rdata s) (access bus i s w))
            there (Inv-executing bus P Q turns i s w h),
      )

  mem-goes_on :
      (i : Input) (s : Fsm) (w : World M)
      → Inv bus P Q turns mem s w
      → At mem_wait (clock_in mem i.ready w.rdata s, access bus i s w)
  unfolding clock_in
  mem-goes_on i s w h =
      let f = decode s.ir in
      let there : (clock_in mem i.ready w.rdata s).state ≡ mem_wait =
        either (λ (x : Fsm). x.state ≡ mem_wait) (f.opcode == op_load) refl
          (either (λ (x : Fsm). x.state ≡ mem_wait) (f.opcode == op_store) refl refl) in
      (
        there,
        subst (λ st. Inv bus P Q turns st (clock_in mem i.ready w.rdata s) (access bus i s w)) there
            (Inv-mem bus P Q turns i s w h),
      )

  -- From ST_DECODE to the next ST_FETCH, for an instruction that is no EBREAK.
  Leads-decoding :
      (u v : ℕ) (x : Fsm × World M)
      → ((s : Fsm) (w : World M)
          → Inv bus P Q turns executing s w
          → is_ebreak (decode s.ir) ≡ false)
      → Waits inputs (suc (suc (suc u))) v
      → At decoding x
      → Leads u x (suc v) fetch
  unfolding clock_in
  Leads-decoding u v x whole waiting at =
      in_turn u (suc u) (suc v) executing fetch x
        (one u decoding executing x.0 x.1 at.0
          (refl, Inv-decoding bus P Q turns (inputs u) x.0 x.1 at.1))
        (λ x₃ at₃.
          in_turn (suc u) (suc (suc u)) (suc v) mem fetch x₃
            (one (suc u) executing mem x₃.0 x₃.1 at₃.0
              (executing-goes_on (inputs (suc u)) x₃.0 x₃.1 (whole x₃.0 x₃.1 at₃.1) at₃.1))
            (λ x₄ at₄.
              in_turn (suc (suc u)) (suc (suc (suc u))) (suc v) mem_wait fetch x₄
                (one (suc (suc u)) mem mem_wait x₄.0 x₄.1 at₄.0
                  (mem-goes_on (inputs (suc (suc u))) x₄.0 x₄.1 at₄.1))
                (λ x₅ at₅.
                  in_turn (suc (suc (suc u))) v (suc v) wb fetch x₅
                    (mem-Waits (suc (suc (suc u))) v x₅.0 x₅.1 waiting at₅)
                    (λ x₆ at₆.
                      one v wb fetch x₆.0 x₆.1 at₆.0
                        (refl, Inv-wb bus P Q turns (inputs v) x₆.0 x₆.1 at₆.1)))))

  pub Leads-fetch :
      (t u v : ℕ) (s : Fsm) (w : World M)
      → ((s : Fsm) (w : World M)
          → Inv bus P Q turns executing s w
          → is_ebreak (decode s.ir) ≡ false)
      → s.state ≡ fetch
      → s.mem_valid ≡ false
      → P (core s, w.memory)
      → Waits inputs (suc t) u
      → Waits inputs (suc (suc (suc u))) v
      → Leads t (s, w) (suc v) fetch
  unfolding clock_in
  Leads-fetch t u v s w whole here quiet p first second =
      in_turn t (suc t) (suc v) fetch_wait fetch (s, w)
        (one t fetch fetch_wait s w here (refl, Inv-fetch bus P Q turns (inputs t) s w p quiet))
        (λ x₁ at₁.
          in_turn (suc t) u (suc v) decoding fetch x₁ (fetch-Waits (suc t) u x₁.0 x₁.1 first at₁)
            (λ x₂ at₂. Leads-decoding u v x₂ whole second at₂))

module _ {M : Type 0} (bus : Bus M) (inputs : ℕ → Input) where
  -- A core is in ST_FETCH at a clock `t` with no access under way, and the word that the memory has at
  -- its pc is no EBREAK. When the memory is first ready again in the clock before `u`, and from `u + 3`
  -- on first in the clock before `v`, the core is in ST_FETCH again at the clock `v + 1`, with no access
  -- under way, and its pc, its registers and the memory are those after one step of Core.Exec.
  pub Cycles-step :
      (t u v : ℕ) (s : Fsm) (w : World M)
      → s.state ≡ fetch
      → s.mem_valid ≡ false
      → is_ebreak (decode (bus.read w.memory s.pc 2).0) ≡ false
      → Waits inputs (t + 1) u
      → Waits inputs (u + 3) v
      → (y : Fsm × World M) × Cycles bus inputs t (s, w) (v + 1) y
        × (y.0.state ≡ fetch)
        × (y.0.mem_valid ≡ false)
        × (step bus (core s, w.memory) ≡ (core y.0, y.1.memory))
  Cycles-step t u v s w here quiet whole first second =
      let start : Core × M = (core s, w.memory) in
      let (y, run, (there, (reached, rests))) =
        Leads-fetch bus inputs (λ x. start ≡ x) (λ x. step bus start ≡ x) (λ x e. ap (step bus) e) t
          u v s w
          (λ s₃ w₃ ((m, same, fetched), quiet₃).
            subst (λ n. is_ebreak (decode n) ≡ false)
              (ap (λ (x : Core × M). (bus.read x.1 x.0.pc 2).0) same
                ∙ ap (λ (x : ℕ × M). x.0) fetched)
              whole)
          here quiet refl (subst (λ n. Waits inputs n u) (omega arith) first)
          (subst (λ n. Waits inputs n v) (omega arith) second) in
      (y, subst (λ n. Cycles bus inputs t (s, w) n y) (omega arith) run, there, rests, reached)
