-- ===== src/Core/Invariant.antt =====
-- What every access of the bus keeps, every execution of the core of src/rv32i_core.v keeps.
use agil_a.Common.{ℕ, ◌≡◌, refl, Bool, true, false, ◌==◌, if◌then◌else◌}
use agil_a.Asm.Encode.{op_load, op_store}
use agil_a.Core.Decode.{Fields, decode, is_ebreak}
use agil_a.Core.Exec.{Core, Bus, exec_fields, exec, step}
use agil_a.Core.Runs.{Runs, stop, next}

-- A property of both branches is one of the choice.
pub either {ℓ κ} :
    {A : Type ℓ} (P : A → Type κ) (test : Bool) {x y : A} → P x → P y → P (if test then x else y)
either P true px py = px
either P false px py = py

-- The same, where a branch may use the test.
pub either_when {ℓ κ} :
    {A : Type ℓ} (P : A → Type κ) (test : Bool) {x y : A}
    → (test ≡ true → P x)
    → (test ≡ false → P y)
    → P (if test then x else y)
either_when P true px py = px refl
either_when P false px py = py refl

module _ {M : Type 0} (bus : Bus M) (P : M → Type 0)
    (reads : (m : M) (at size : ℕ) → P m → P (bus.read m at size).1)
    (writes : (m : M) (at size v : ℕ) → P m → P (bus.write m at size v)) where
  exec_fields-keeps : (f : Fields) (c : Core) (m : M) → P m → P (exec_fields bus f c m).1
  unfolding exec_fields
  exec_fields-keeps f c m h =
      either (λ (s : Core × M). P s.1) (is_ebreak f) h
        (either (λ (s : Core × M). P s.1) (f.opcode == op_load) (reads m _ _ h)
          (either (λ (s : Core × M). P s.1) (f.opcode == op_store) (writes m _ _ _ h) h))

  step-keeps : (c : Core) (m : M) → P m → P (step bus (c, m)).1
  unfolding step exec
  step-keeps c m h =
      either (λ (s : Core × M). P s.1) c.halted h
        (exec_fields-keeps (decode (bus.read m c.pc 2).0) c (bus.read m c.pc 2).1
          (reads m c.pc 2 h))

  pub Runs-keeps : {s t : Core × M} → Runs bus s t → P s.1 → P t.1
  Runs-keeps stop h = h
  Runs-keeps {s = s} (next later) h = Runs-keeps later (step-keeps s.0 s.1 h)
