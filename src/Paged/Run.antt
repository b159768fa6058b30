-- ===== src/Paged/Run.antt =====
-- Words of tools/asm_pineapple.py executed in turn on the core of src/rv32i_core.v, and the load of a
-- constant.
use agil_a.Common.{ℕ, ◌+◌, ◌%◌, ◌^◌, ◌<◌, ◌≡◌, arith, List, [], ◌∷◌}
use agil_a.Common.Int.{ℤ, mask, mask-lt}
use agil_a.Asm.Encode.{word, addi}
use agil_a.Core.Exec.{Core, Bus, reg, set_reg, exec}
use agil_a.Core.Meaning.{Fits, perform, put}
use agil_a.Core.Encoded.Instrs.{exec-word}

-- What has been put into a register is read from it, but for x0.
pub reg-put : (c : Core) (rd v : ℕ) → 0 < rd → reg (put c rd v) rd ≡ v
unfolding reg set_reg
reg-put c rd v h = ground arith

-- The words executed in turn.
abbrev pub exec_all : {M : Type 0} → Bus M → List ℕ → Core → M → Core × M
exec_all bus [] c m = (c, m)
exec_all bus (w ∷ ws) c m = let (c', m') = exec bus w c m in exec_all bus ws c' m'

module _ {M : Type 0} (bus : Bus M) where
  -- `ADDI` from x0 loads a constant that fits twelve bits.
  pub exec-addi_zero :
      (rd : ℕ) (value : ℤ) (c : Core) (m : M)
      → rd < 32
      → Fits value
      → exec bus (word (addi rd 0 value)) c m ≡ (put c rd (mask 32 value), m)
  unfolding perform reg
  exec-addi_zero rd value c m hd fits =
      let e : exec bus (word (addi rd 0 value)) c m ≡ perform bus (addi rd 0 value) c m =
        exec-word bus (addi rd 0 value) c m (hd, omega arith, fits) in
      let small : (0 + mask 32 value) % 2 ^ 32 ≡ mask 32 value = omega (arith, mask-lt 32 value) in
      rw (e, small)
