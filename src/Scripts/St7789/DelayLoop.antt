-- ===== src/Scripts/St7789/DelayLoop.antt =====
-- The loop of the delay pages of tools/build_st7789_flash_image.py, on the core of src/rv32i_core.v.
use agil_a.Common.{
  ℕ, zero, suc, ◌+◌, ◌*◌, ◌%◌, ◌^◌, ◌<◌, ◌≡◌, refl, sym, subst, ap, ◌∙◌, arith, false, List, [],
  ◌∷◌, ◌==◌,
}
use agil_a.Common.Int.{pos, neg, mask}
use agil_a.Asm.Encode.{word, addi, branch_word, jal_word}
use agil_a.Core.Alu.{branch_cond}
use agil_a.Core.Exec.{Core, Bus, reg, set_reg, exec, step}
use agil_a.Core.Meaning.{perform, put}
use agil_a.Core.Encoded.Formats.{exec_branch, exec_jal}
use agil_a.Core.Encoded.Instrs.{exec-word}
use agil_a.Paged.Run.{reg-put}

-- `n` rounds of the core.
abbrev pub steps : {M : Type 0} → Bus M → ℕ → Core × M → Core × M
steps bus zero s = s
steps bus (suc n) s = steps bus n (step bus s)

-- Words that stand at `at` and the addresses after it, and that a read leaves alone.
abbrev pub Serves : {M : Type 0} → Bus M → M → ℕ → List ℕ → Type 0
Serves bus m at [] = Unit
Serves bus m at (w ∷ ws) = (bus.read m at 2 ≡ (w, m)) × Serves bus m (at + 4) ws

module _ {M : Type 0} (bus : Bus M) where
  pub step-exec :
      (c : Core) (m : M) (at w : ℕ)
      → c.halted ≡ false
      → c.pc ≡ at
      → bus.read m at 2 ≡ (w, m)
      → step bus (c, m) ≡ exec bus w c m
  unfolding step
  step-exec c m at w runs here reads = rw (runs, here, reads)

  -- The three words of the loop.
  step-beq_done :
      (c : Core) (m : M)
      → c.halted ≡ false
      → c.pc ≡ 0xB8
      → bus.read m 0xB8 2 ≡ (branch_word 0 2 0 (pos 12), m)
      → reg c 2 ≡ 0
      → step bus (c, m) ≡ (record c { pc = 0xC4 }, m)
  unfolding mask branch_cond reg
  step-beq_done c m runs here reads is =
      step-exec c m 0xB8 (branch_word 0 2 0 (pos 12)) runs here reads
      ∙ rw (
        exec_branch bus c m 0 2 0 (pos 12) (omega arith) (omega arith) (omega arith) refl,
        is,
        here,
      )

  step-beq_on :
      (n : ℕ) (c : Core) (m : M)
      → c.halted ≡ false
      → c.pc ≡ 0xB8
      → bus.read m 0xB8 2 ≡ (branch_word 0 2 0 (pos 12), m)
      → reg c 2 ≡ suc n
      → step bus (c, m) ≡ (record c { pc = 0xBC }, m)
  unfolding mask branch_cond reg
  step-beq_on n c m runs here reads is =
      let differs : (suc n == 0) ≡ false = ground arith in
      step-exec c m 0xB8 (branch_word 0 2 0 (pos 12)) runs here reads
      ∙ rw (
        exec_branch bus c m 0 2 0 (pos 12) (omega arith) (omega arith) (omega arith) refl,
        is,
        here,
        differs,
      )

  step-decrement :
      (n : ℕ) (c : Core) (m : M)
      → n < 2048
      → c.halted ≡ false
      → c.pc ≡ 0xBC
      → bus.read m 0xBC 2 ≡ (word (addi 2 2 (neg 1)), m)
      → reg c 2 ≡ suc n
      → step bus (c, m) ≡ (put c 2 n, m)
  unfolding perform mask
  step-decrement n c m small runs here reads is =
      let less : (suc n + mask 32 (neg 1)) % 2 ^ 32 ≡ n = omega arith in
      step-exec c m 0xBC (word (addi 2 2 (neg 1))) runs here reads
      ∙ exec-word bus (addi 2 2 (neg 1)) c m (omega arith, omega arith, (omega arith, omega arith))
      ∙ rw (is, less)

  step-jal_back :
      (c : Core) (m : M)
      → c.halted ≡ false
      → c.pc ≡ 0xC0
      → bus.read m 0xC0 2 ≡ (jal_word 0 (neg 8), m)
      → step bus (c, m) ≡ (record c { pc = 0xB8 }, m)
  unfolding mask set_reg
  step-jal_back c m runs here reads =
      step-exec c m 0xC0 (jal_word 0 (neg 8)) runs here reads
      ∙ rw (exec_jal bus c m 0 (neg 8) (omega arith) refl, here)

  -- The loop's words, where the page puts them.
  abbrev HasLoop : M → Type 0
  HasLoop m =
      (bus.read m 0xB8 2 ≡ (branch_word 0 2 0 (pos 12), m))
      × (bus.read m 0xBC 2 ≡ (word (addi 2 2 (neg 1)), m))
      × (bus.read m 0xC0 2 ≡ (jal_word 0 (neg 8), m))

  abbrev pub EndsDelay : M → Core × M → Type 0
  EndsDelay m (c', m') = (c'.pc ≡ 0xC4) × (reg c' 2 ≡ 0) × (m' ≡ m)

  -- From the loop's head with `n` in x2.
  pub loop :
      (n : ℕ) (c : Core) (m : M)
      → n < 2048
      → HasLoop m
      → c.halted ≡ false
      → c.pc ≡ 0xB8
      → reg c 2 ≡ n
      → EndsDelay m (steps bus (n * 3 + 1) (c, m))
  unfolding reg set_reg
  loop zero c m small (b, d, j) runs here is =
      rw (step-beq_done c m runs here b is) (refl, is, refl)
  loop (suc n) c m small (b, d, j) runs here is =
      let more : suc n * 3 + 1 ≡ suc (suc (suc (n * 3 + 1))) = omega arith in
      let c₁ = record c { pc = 0xBC } in
      let c₂ = put c₁ 2 n in
      let c₃ = record c₂ { pc = 0xB8 } in
      let round : steps bus (suc n * 3 + 1) (c, m) ≡ steps bus (n * 3 + 1) (c₃, m) =
        ap (λ (k : ℕ). steps bus k (c, m)) more
        ∙ ap (steps bus (suc (suc (n * 3 + 1)))) (step-beq_on n c m runs here b is)
        ∙ ap (steps bus (suc (n * 3 + 1))) (step-decrement n c₁ m (omega arith) runs refl d is)
        ∙ ap (steps bus (n * 3 + 1)) (step-jal_back c₂ m runs refl j) in
      subst (EndsDelay m) (sym round)
        (loop n c₃ m (omega arith) (b, d, j) runs refl (reg-put c₁ 2 n (omega arith)))
