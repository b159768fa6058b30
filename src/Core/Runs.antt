-- ===== src/Core/Runs.antt =====
-- Executions of the core of src/rv32i_core.v: some number of instructions, one after another.
use agil_a.Common.{◌≡◌, sym, subst, ℕ, false, ◌==◌, if◌then◌else◌}
use agil_a.Core.Exec.{Core, Bus, step}

-- From one state to another, in as many instructions as it takes.
pub data Runs {M : Type 0} (bus : Bus M) : Core × M → Core × M → Type 0 where
  stop : {s : Core × M} → Runs bus s s
  next : {s t : Core × M} → Runs bus (step bus s) t → Runs bus s t

-- A core that is not halted.
abbrev pub running : ℕ → (ℕ → ℕ) → Core
running pc regs = record { pc = pc; regs = regs; halted = false }

-- The registers with `v` in `rd`.
abbrev pub set : (ℕ → ℕ) → ℕ → ℕ → ℕ → ℕ
set r rd v x = if x == rd then v else r x

module _ {M : Type 0} {bus : Bus M} where
  pub Runs-trans : {s t u : Core × M} → Runs bus s t → Runs bus t u → Runs bus s u
  Runs-trans stop later = later
  Runs-trans (next first) later = next (Runs-trans first later)

  -- One instruction, whose result is known, and the rest.
  pub Runs-step : {s t u : Core × M} → step bus s ≡ t → Runs bus t u → Runs bus s u
  Runs-step {u = u} e later = next (subst (λ v. Runs bus v u) (sym e) later)
