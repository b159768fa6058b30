-- ===== src/Core/Fsm/WriteBack.antt =====
-- The state ST_WB of src/rv32i_core.v ends one instruction of Core.Exec.
use std.Path.{fun_ext}
use agil_a.Common.{
  ℕ, ◌%◌, ◌≡◌, refl, sym, ap, ap₂, ◌∙◌, ◌+◌, ◌^◌, arith, Bool, true, false, ◌==◌, ==_iff,
  Bool-cases, inl, inr, if◌then◌else◌,
}
use agil_a.Asm.Encode.{op_load, op_store, op_lui, op_auipc, op_jal, op_jalr, op_imm, op_reg}
use agil_a.Core.Decode.{Fields, decode, is_ebreak}
use agil_a.Core.Exec.{
  Core, Bus, reg, set_reg, mem_size, load_value, next_pc, alu_y, write_back, exec_fields, exec,
  step,
}
use agil_a.Core.Invariant.{either_when}
use agil_a.Core.Fsm.{wb, Fsm, core, wb_regs, clock_in}

same : (b c : Bool) (x : ℕ) → x ≡ (if b then x else if c then x else x)
same b c x = ground arith

-- A write of one register, register by register.
set_reg-regs :
    (c : Core) (rd v : ℕ) (g : ℕ → ℕ)
    → ((r : ℕ) → (if rd == 0 then c.regs r else if r == rd then v else c.regs r) ≡ g r)
    → set_reg c rd v ≡ record c { regs = g }
unfolding set_reg
set_reg-regs c rd v g each =
    let all : set_reg c rd v
        ≡ record c { regs = λ r. if rd == 0 then c.regs r else if r == rd then v else c.regs r } =
      elim (Bool-cases (rd == 0)) [ inl zeroed ↦ rw zeroed refl | inr some_rd ↦ rw some_rd refl ] in
    all ∙ ap (λ (h : ℕ → ℕ). record c { regs = h }) (fun_ext each)

-- What ST_WB writes is what an instruction without a memory access writes.
wb_regs-write_back :
    (f : Fields) (rdata : ℕ) (s : Fsm)
    → (f.opcode == op_load) ≡ false
    → write_back f (core s)
      ≡ record (core s) { regs = wb_regs f rdata (record s { alu_result = alu_y f (core s) }) }
unfolding write_back wb_regs
wb_regs-write_back f rdata s other =
    let g = wb_regs f rdata (record s { alu_result = alu_y f (core s) }) in
    let P = λ (c : Core). c ≡ record (core s) { regs = g } in
    either_when P (f.opcode == op_lui) (λ e. set_reg-regs (core s) f.rd f.imm_u g (λ r. rw e refl))
      (λ e1.
        either_when P (f.opcode == op_auipc)
          (λ e. set_reg-regs (core s) f.rd ((s.pc + f.imm_u) % 2 ^ 32) g (λ r. rw (e1, e) refl))
          (λ e2.
            either_when P (f.opcode == op_jal)
              (λ e. set_reg-regs (core s) f.rd (s.pc + 4) g (λ r. rw (e1, e2, e) refl))
              (λ e3.
                either_when P (f.opcode == op_jalr)
                  (λ e. set_reg-regs (core s) f.rd (s.pc + 4) g (λ r. rw (e1, e2, e3, e) refl))
                  (λ e4.
                    either_when P (f.opcode == op_imm)
                      (λ e.
                        set_reg-regs (core s) f.rd (alu_y f (core s)) g
                          (λ r. rw (e1, e2, e3, e4, other, e) refl))
                      (λ e5.
                        either_when P (f.opcode == op_reg)
                          (λ e.
                            set_reg-regs (core s) f.rd (alu_y f (core s)) g
                              (λ r. rw (e1, e2, e3, e4, other, e5, e) refl))
                          (λ e6.
                            ap (λ (h : ℕ → ℕ). record (core s) { regs = h })
                              (fun_ext (λ r.
                                rw (e1, e2, e3, e4, other, e5, e6)
                                  (same (f.rd == 0) (r == f.rd) (s.regs r))))))))))

-- A store leaves the registers, and a load writes what was read.
wb_regs-store :
    (f : Fields) (rdata : ℕ) (s : Fsm) → (f.opcode == op_store) ≡ true → s.regs ≡ wb_regs f rdata s
unfolding wb_regs
wb_regs-store f rdata s is =
    let code = (==_iff f.opcode op_store).0 is in
    fun_ext (λ r. rw code (same (f.rd == 0) (r == f.rd) (s.regs r)))

wb_regs-load :
    (f : Fields) (rdata : ℕ) (s : Fsm)
    → (f.opcode == op_load) ≡ true
    → set_reg (core s) f.rd (load_value f.funct3 rdata)
      ≡ record (core s) { regs = wb_regs f rdata s }
unfolding wb_regs
wb_regs-load f rdata s is =
    let code = (==_iff f.opcode op_load).0 is in
    set_reg-regs (core s) f.rd (load_value f.funct3 rdata) (wb_regs f rdata s) (λ r. rw code refl)

pick_true {ℓ} : {A : Type ℓ} (t : Bool) (x y : A) → t ≡ true → (if t then x else y) ≡ x
pick_true t x y e = ap (λ b. if b then x else y) e

pick_false {ℓ} : {A : Type ℓ} (t : Bool) (x y : A) → t ≡ false → (if t then x else y) ≡ y
pick_false t x y e = ap (λ b. if b then x else y) e

module _ {M : Type 0} (bus : Bus M) where
  -- What the access of an instruction has done to the memory, and what `mem_rdata` is then.
  pub data Done (s : Fsm) (m : M) (rdata : ℕ) (m' : M) : Type 0 where
    loaded :
        ((decode s.ir).opcode == op_load) ≡ true
        → bus.read m (alu_y (decode s.ir) (core s) % 256) (mem_size (decode s.ir).funct3)
          ≡ (rdata, m')
        → Done s m rdata m'
    stored :
        ((decode s.ir).opcode == op_load) ≡ false
        → ((decode s.ir).opcode == op_store) ≡ true
        → bus.write m
            (alu_y (decode s.ir) (core s) % 256)
            (mem_size (decode s.ir).funct3)
            (reg (core s) (decode s.ir).rs2)
          ≡ m'
        → Done s m rdata m'
    untouched :
        ((decode s.ir).opcode == op_load) ≡ false
        → ((decode s.ir).opcode == op_store) ≡ false
        → m ≡ m'
        → Done s m rdata m'

  exec-wb :
      (s : Fsm) (ready : Bool) (rdata : ℕ) (m m' : M)
      → is_ebreak (decode s.ir) ≡ false
      → s.alu_result ≡ alu_y (decode s.ir) (core s)
      → s.next ≡ next_pc (decode s.ir) (core s)
      → Done s m rdata m'
      → exec_fields bus (decode s.ir) (core s) m ≡ (core (clock_in wb ready rdata s), m')
  unfolding exec_fields clock_in
  exec-wb s ready rdata m m' whole latched next (loaded is answers) =
      let f = decode s.ir in
      pick_false (is_ebreak f) _ _ whole
      ∙ pick_true (f.opcode == op_load) _ _ is
      ∙ ap
          (λ (x : ℕ × M). (
            record (set_reg (core s) f.rd (load_value f.funct3 x.0)) { pc = next_pc f (core s) },
            x.1,
          ))
          answers
      ∙ ap (λ (c : Core). (record c { pc = next_pc f (core s) }, m')) (wb_regs-load f rdata s is)
      ∙ ap (λ (n : ℕ). (record (core s) { pc = n; regs = wb_regs f rdata s }, m')) (sym next)
  exec-wb s ready rdata m m' whole latched next (stored other is writes) =
      let f = decode s.ir in
      pick_false (is_ebreak f) _ _ whole
      ∙ pick_false (f.opcode == op_load) _ _ other
      ∙ pick_true (f.opcode == op_store) _ _ is
      ∙ ap (λ (x : M). (record (core s) { pc = next_pc f (core s) }, x)) writes
      ∙ ap (λ (g : ℕ → ℕ). (record (core s) { pc = next_pc f (core s); regs = g }, m'))
          (wb_regs-store f rdata s is)
      ∙ ap (λ (n : ℕ). (record (core s) { pc = n; regs = wb_regs f rdata s }, m')) (sym next)
  exec-wb s ready rdata m m' whole latched next (untouched other other' kept) =
      let f = decode s.ir in
      pick_false (is_ebreak f) _ _ whole
      ∙ pick_false (f.opcode == op_load) _ _ other
      ∙ pick_false (f.opcode == op_store) _ _ other'
      ∙ ap (λ (c : Core). (record c { pc = next_pc f (core s) }, m))
          (wb_regs-write_back f rdata s other)
      ∙ ap
          (λ (y : ℕ). (
            record (core s) {
              pc = next_pc f (core s);
              regs = wb_regs f rdata (record s { alu_result = y });
            },
            m,
          ))
          (sym latched)
      ∙ ap₂ (λ (n : ℕ) (x : M). (record (core s) { pc = n; regs = wb_regs f rdata s }, x))
          (sym next) kept

  -- One round of the state machine is one step.
  pub step-wb :
      (s : Fsm) (ready : Bool) (rdata : ℕ) (m m₁ m₂ : M)
      → bus.read m s.pc 2 ≡ (s.ir, m₁)
      → is_ebreak (decode s.ir) ≡ false
      → s.alu_result ≡ alu_y (decode s.ir) (core s)
      → s.next ≡ next_pc (decode s.ir) (core s)
      → Done s m₁ rdata m₂
      → step bus (core s, m) ≡ (core (clock_in wb ready rdata s), m₂)
  unfolding step exec
  step-wb s ready rdata m m₁ m₂ fetched whole latched next done =
      ap (λ (x : ℕ × M). exec_fields bus (decode x.0) (core s) x.1) fetched
      ∙ exec-wb s ready rdata m₁ m₂ whole latched next done

  -- An EBREAK halts.
  pub step-parked :
      (s : Fsm) (m m₁ : M)
      → bus.read m s.pc 2 ≡ (s.ir, m₁)
      → is_ebreak (decode s.ir) ≡ true
      → step bus (core s, m) ≡ (record (core s) { halted = true }, m₁)
  unfolding step exec exec_fields
  step-parked s m m₁ fetched is =
      ap (λ (x : ℕ × M). exec_fields bus (decode x.0) (core s) x.1) fetched
      ∙ pick_true (is_ebreak (decode s.ir)) _ _ is
