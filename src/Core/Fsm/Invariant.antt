-- ===== src/Core/Fsm/Invariant.antt =====
-- What each state of src/rv32i_core.v holds of the instruction that it is in, and that every clock keeps
-- it: `P` is a property of the core and the memory where an instruction starts, and `Q` where it ends.
use agil_a.Common.{ℕ, ◌%◌, ◌≡◌, refl, sym, subst, Bool, Bool-cases, inl, inr, true, false, ◌==◌}
use agil_a.Asm.Encode.{op_load, op_store}
use agil_a.Core.Decode.{decode, is_ebreak}
use agil_a.Core.Exec.{Core, Bus, reg, mem_size, next_pc, alu_y, step}
use agil_a.Core.Invariant.{either_when}
use agil_a.Core.Fsm.{
  State, fetch, fetch_wait, decoding, executing, mem, mem_wait, wb, parked, Fsm, core, clock_in,
  World, Input, access,
}
use agil_a.Core.Fsm.WriteBack.{Done, loaded, stored, untouched, step-wb, step-parked}

-- The latches of ST_EXEC.
abbrev pub Latched : Fsm → Type 0
Latched s =
    (is_ebreak (decode s.ir) ≡ false)
    × (s.alu_result ≡ alu_y (decode s.ir) (core s))
    × (s.next ≡ next_pc (decode s.ir) (core s))

-- What the port asks for in ST_MEM_WAIT.
pub data Asked (s : Fsm) : Type 0 where
  a_load :
      ((decode s.ir).opcode == op_load) ≡ true
      → s.mem_valid ≡ true
      → s.mem_we ≡ false
      → s.mem_addr ≡ alu_y (decode s.ir) (core s) % 256
      → s.size ≡ mem_size (decode s.ir).funct3
      → Asked s
  a_store :
      ((decode s.ir).opcode == op_load) ≡ false
      → ((decode s.ir).opcode == op_store) ≡ true
      → s.mem_valid ≡ true
      → s.mem_we ≡ true
      → s.mem_addr ≡ alu_y (decode s.ir) (core s) % 256
      → s.size ≡ mem_size (decode s.ir).funct3
      → s.mem_wdata ≡ reg (core s) (decode s.ir).rs2
      → Asked s
  nothing :
      ((decode s.ir).opcode == op_load) ≡ false
      → ((decode s.ir).opcode == op_store) ≡ false
      → s.mem_valid ≡ false
      → Asked s

mem_valid-wb :
    (ready : Bool) (rdata : ℕ) (s : Fsm)
    → s.mem_valid ≡ false
    → (clock_in wb ready rdata s).mem_valid ≡ false
unfolding clock_in
mem_valid-wb ready rdata s quiet = quiet

module _ {M : Type 0} (bus : Bus M) (P Q : Core × M → Type 0)
    (turns : (x : Core × M) → P x → Q (step bus x)) where
  -- The instruction in `ir` was fetched from the memory `m`.
  abbrev pub Fetched : Fsm → M → Type 0
  Fetched s m₁ = (m : M) × P (core s, m) × (bus.read m s.pc 2 ≡ (s.ir, m₁))

  abbrev pub Inv : State → Fsm → World M → Type 0
  Inv fetch s w = Q (core s, w.memory) × (s.mem_valid ≡ false)
  Inv fetch_wait s w =
      P (core s, w.memory)
      × (s.mem_valid ≡ true)
      × (s.mem_we ≡ false)
      × (s.mem_addr ≡ s.pc)
      × (s.size ≡ 2)
  Inv decoding s w =
      (m : M) × P (core s, m) × (bus.read m s.pc 2 ≡ (w.rdata, w.memory)) × (s.mem_valid ≡ false)
  Inv executing s w = (_ : Fetched s w.memory) × (s.mem_valid ≡ false)
  Inv mem s w = (_ : Fetched s w.memory) × (_ : Latched s) × (s.mem_valid ≡ false)
  Inv mem_wait s w = (_ : Fetched s w.memory) × (_ : Latched s) × Asked s
  Inv wb s w =
      (m₁ : M) × (_ : Fetched s m₁) × (_ : Latched s) × Done bus s m₁ w.rdata w.memory
      × (s.mem_valid ≡ false)
  Inv parked s w = Q (record (core s) { halted = true }, w.memory) × (s.mem_valid ≡ false)

  access-quiet :
      (i : Input) (s : Fsm) (w : World M)
      → s.mem_valid ≡ false
      → access bus i s w ≡ record { memory = w.memory; rdata = i.noise }
  unfolding access
  access-quiet i s w quiet = rw quiet refl

  -- A property of what is behind the port, while the memory is not ready.
  pub waiting :
      (noise : ℕ) (s : Fsm) (w : World M) (R : World M → Type 0)
      → R (record { memory = w.memory; rdata = noise })
      → R (access bus (record { ready = false; noise = noise }) s w)
  unfolding access
  waiting noise s w R h = elim (Bool-cases s.mem_valid) [
    | inl valid ↦ rw valid h
    | inr quiet ↦ rw quiet h
  ]

  -- A property of what an access leaves, when the port is quiet.
  pub quietly :
      (i : Input) (s : Fsm) (w : World M) (R : World M → Type 0)
      → s.mem_valid ≡ false
      → R (record { memory = w.memory; rdata = i.noise })
      → R (access bus i s w)
  quietly i s w R quiet h = subst R (sym (access-quiet i s w quiet)) h

  pub Inv-mem :
      (i : Input) (s : Fsm) (w : World M)
      → Inv mem s w
      → let s' = clock_in mem i.ready w.rdata s in Inv s'.state s' (access bus i s w)
  unfolding clock_in
  Inv-mem i s w (fetched, latched, quiet) =
      let f = decode s.ir in
      let w' : World M = record { memory = w.memory; rdata = i.noise } in
      let R = λ (s' : Fsm). Inv s'.state s' w' in
      quietly i s w (λ x. let s' = clock_in mem i.ready w.rdata s in Inv s'.state s' x) quiet
        (either_when R (f.opcode == op_load)
          (λ is. (fetched, latched, a_load is refl refl refl refl))
          (λ other.
            either_when R (f.opcode == op_store)
              (λ is. (fetched, latched, a_store other is refl refl refl refl refl))
              (λ other'. (fetched, latched, nothing other other' refl))))

  pub Inv-executing :
      (i : Input) (s : Fsm) (w : World M)
      → Inv executing s w
      → let s' = clock_in executing i.ready w.rdata s in Inv s'.state s' (access bus i s w)
  unfolding clock_in
  Inv-executing i s w ((m, run, fetched), quiet) =
      let f = decode s.ir in
      let w' : World M = record { memory = w.memory; rdata = i.noise } in
      quietly i s w (λ x. let s' = clock_in executing i.ready w.rdata s in Inv s'.state s' x) quiet
        (either_when (λ (s' : Fsm). Inv s'.state s' w') (is_ebreak f)
          (λ is. (subst Q (step-parked bus s m w.memory fetched is) (turns (core s, m) run), refl))
          (λ whole. ((m, run, fetched), (whole, refl, refl), quiet)))

  pub Inv-fetch_wait :
      (ready : Bool) (noise : ℕ) (s : Fsm) (w : World M)
      → s.state ≡ fetch_wait
      → Inv fetch_wait s w
      → let s' = clock_in fetch_wait ready w.rdata s in
        Inv s'.state s' (access bus (record { ready = ready; noise = noise }) s w)
  unfolding clock_in access
  Inv-fetch_wait true noise s w here (run, valid, reads, addr, word) =
      rw (valid, reads, addr, word) (w.memory, run, refl, refl)
  Inv-fetch_wait false noise s w here h =
      waiting noise s w (λ x. Inv s.state s x)
        (subst (λ st. Inv st s (record { memory = w.memory; rdata = noise })) (sym here) h)

  pub Inv-mem_wait :
      (ready : Bool) (noise : ℕ) (s : Fsm) (w : World M)
      → s.state ≡ mem_wait
      → Inv mem_wait s w
      → let s' = clock_in mem_wait ready w.rdata s in
        Inv s'.state s' (access bus (record { ready = ready; noise = noise }) s w)
  unfolding clock_in access
  Inv-mem_wait true noise s w here (fetched, latched, a_load is valid reads addr word) =
      rw (valid, reads, addr, word) (w.memory, fetched, latched, loaded is refl, refl)
  Inv-mem_wait true noise s w here
        (fetched, latched, a_store other is valid writes addr word data_) =
      rw (valid, writes, addr, word, data_) (w.memory, fetched, latched, stored other is refl, refl)
  Inv-mem_wait true noise s w here (fetched, latched, nothing other other' quiet) =
      rw quiet (w.memory, fetched, latched, untouched other other' refl, refl)
  Inv-mem_wait false noise s w here h =
      waiting noise s w (λ x. Inv s.state s x)
        (subst (λ st. Inv st s (record { memory = w.memory; rdata = noise })) (sym here) h)

  -- The other states, whose port is quiet.
  pub Inv-fetch :
      (i : Input) (s : Fsm) (w : World M)
      → P (core s, w.memory)
      → s.mem_valid ≡ false
      → Inv fetch_wait (clock_in fetch i.ready w.rdata s) (access bus i s w)
  unfolding clock_in
  Inv-fetch i s w run quiet =
      quietly i s w (Inv fetch_wait (clock_in fetch i.ready w.rdata s)) quiet
        (run, refl, refl, refl, refl)

  pub Inv-decoding :
      (i : Input) (s : Fsm) (w : World M)
      → Inv decoding s w
      → Inv executing (clock_in decoding i.ready w.rdata s) (access bus i s w)
  unfolding clock_in
  Inv-decoding i s w (m, run, fetched, quiet) =
      quietly i s w (Inv executing (clock_in decoding i.ready w.rdata s)) quiet
        ((m, run, fetched), quiet)

  pub Inv-wb :
      (i : Input) (s : Fsm) (w : World M)
      → Inv wb s w
      → Inv fetch (clock_in wb i.ready w.rdata s) (access bus i s w)
  Inv-wb i s w (m₁, (m, run, fetched), (whole, latched, next), done, quiet) =
      let s' = clock_in wb i.ready w.rdata s in
      quietly i s w (Inv fetch s') quiet (
        subst Q (step-wb bus s i.ready w.rdata m m₁ w.memory fetched whole latched next done)
            (turns (core s, m) run),
        mem_valid-wb i.ready w.rdata s quiet,
      )
