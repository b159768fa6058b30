-- ===== src/Scripts/BootRom/Load.antt =====
-- The bootloader of tools/build_boot_rom.py on the chip: a length and that many bytes come over the wire
-- into the RAM from 0xB4 on.
use mathlib.Core.List.{flatten}
use native.Mathlib.Nat.{pow-suc}
use agil_a.Common.{
  ℕ, zero, suc, ◌+◌, ◌-◌, ◌*◌, ◌%◌, ◌^◌, ◌<◌, ◌≡◌, refl, ap, subst, ◌∙◌, arith, true, false, ◌==◌,
  List, [], ◌∷◌, ◌++◌, length, map,
}
use agil_a.Common.Int.{pos, neg, mask}
use agil_a.Asm.Bytes.Laws.{AllBelow}
use agil_a.Asm.Encode.{addi, sb}
use agil_a.Core.Alu.{branch_cond}
use agil_a.Core.Exec.{step, reg, set_reg}
use agil_a.Core.Meaning.{perform}
use agil_a.Core.Runs.{Runs, stop, running, set, Runs-step, Runs-trans}
use agil_a.Chip.Memory.{Board, Psram, Chip, in_ram, in_ext_flash, write, chip_bus, ram_put}
use agil_a.Chip.Image.{HasBytes}
use agil_a.Scripts.BootRom.Steps.{HasBootRom, rom-instr, rom-branch, rom-jal}
use agil_a.Scripts.BootRom.Wire.{Sent, quiet, pulse, number}
use agil_a.Scripts.BootRom.Byte.{Runs-byte}

-- The RAM after bytes are stored from its byte `i` on.
abbrev pub loaded : (ℕ → ℕ) → ℕ → List ℕ → ℕ → ℕ
loaded ram i [] = ram
loaded ram i (b ∷ bs) = loaded (ram_put ram i 0 b) (suc i) bs

loaded-below : (bs : List ℕ) (ram : ℕ → ℕ) (i j : ℕ) → j < i → loaded ram i bs j ≡ ram j
unfolding ram_put
loaded-below [] ram i j h = refl
loaded-below (b ∷ bs) ram i j h =
    let other : ram_put ram i 0 b j ≡ ram j = ground arith in
    loaded-below bs (ram_put ram i 0 b) (suc i) j (omega arith) ∙ other

pub loaded-HasBytes :
    (bs : List ℕ) (ram : ℕ → ℕ) (i : ℕ) → AllBelow 256 bs → HasBytes (loaded ram i bs) i bs
unfolding ram_put
loaded-HasBytes [] ram i below = tt
loaded-HasBytes (b ∷ bs) ram i (small, below) =
    let here : ram_put ram i 0 b i ≡ b = ground arith in
    (
      loaded-below bs (ram_put ram i 0 b) (suc i) i (omega arith) ∙ here,
      loaded-HasBytes bs (ram_put ram i 0 b) (suc i) below,
    )

-- Bytes as their bits.
abbrev pub AreBytes : List (List ℕ) → Type 0
AreBytes [] = Unit
AreBytes (bits ∷ rest) = (length bits ≡ 8) × AllBelow 2 bits × AreBytes rest

pub Sent-append :
    (board : Board) (xs ys : List ℕ) (t w : ℕ)
    → Sent board (xs ++ ys) t w
    → (u : ℕ) × Sent board xs t u × Sent board ys u w
Sent-append board [] ys t w h = (t, quiet, h)
Sent-append board (x ∷ xs) ys t w (pulse high low rest) =
    let (u, first, second) = Sent-append board xs ys _ w rest in (u, pulse high low first, second)

doubled :
    (x b left bound : ℕ)
    → b < 2
    → suc x * 2 ^ suc left < suc bound
    → suc (2 * x + b) * 2 ^ left < suc bound
doubled x zero left bound two h = omega (arith, ap (λ (n : ℕ). suc x * n) (pow-suc 2 left))
doubled x (suc zero) left bound two h = omega (arith, ap (λ (n : ℕ). suc x * n) (pow-suc 2 left))
doubled x (suc (suc b)) left bound two h = absurd (omega arith)

pub number-below :
    (bits : List ℕ) (acc bound : ℕ)
    → AllBelow 2 bits
    → suc acc * 2 ^ length bits < suc bound
    → number acc bits < bound
number-below [] acc bound below h = omega arith
number-below (b ∷ bits) acc bound (two, below) h =
    number-below bits (2 * acc + b) bound below (doubled acc b (length bits) bound two h)

module _ {D : Type 0} (board : Board) (ram_chips : Psram D) (rom : HasBootRom board) where
  in_ram-true : (m : Chip D) (i : ℕ) → m.flash_mode ≡ false → i < 48 → in_ram m (0xB0 + i) ≡ true
  unfolding in_ram in_ext_flash
  in_ram-true m i off h = ground arith

  write-ram :
      (m : Chip D) (i v : ℕ)
      → m.flash_mode ≡ false
      → i < 48
      → write board ram_chips m (0xB0 + i) 0 v ≡ record m { ram = ram_put m.ram i 0 v }
  unfolding write
  write-ram m i v off h =
      let at : 0xB0 + i - 0xB0 ≡ i = omega arith in rw (in_ram-true m i off h, at) refl

  -- BYTE_LOOP, with the count in x4 and the next address in x5.
  pub Runs-load :
      (bytes : List (List ℕ)) (i t w : ℕ) (r : ℕ → ℕ) (m : Chip D)
      → m.sampled ≡ t
      → m.flash_mode ≡ false
      → Sent board (flatten bytes) t w
      → AreBytes bytes
      → r 4 ≡ length bytes
      → r 5 ≡ 0xB0 + i
      → i + length bytes < 49
      → (r' : ℕ → ℕ) × Runs
          (chip_bus board ram_chips)
          (running 0x54 r, m)
          (running 0xB4 r', record m { ram = loaded m.ram i (map (number 0) bytes); sampled = w })
  unfolding perform branch_cond set_reg reg mask flatten
  Runs-load [] i t w r m at off quiet are count here fits =
      let none_left : (r 4 == 0) ≡ true = ground arith in
      let first =
        rom-branch board ram_chips rom 21 0 4 0 (pos 24) true r m refl (omega arith)
          (omega arith, omega arith, omega arith) refl none_left in
      let second =
        rom-jal board ram_chips rom 27 0 (pos 72) r m refl (omega arith) (omega arith) refl in
      (
        r,
        Runs-step first (
            Runs-step second (
              subst
                (λ n.
                  Runs (chip_bus board ram_chips) (running 0xB4 r, m)
                    (running 0xB4 r, record m { sampled = n }))
                at stop)),
      )
  Runs-load (bits ∷ bytes) i t w r m at off sent (eight, below, are) count here fits =
      let (u, this, later) = Sent-append board bits (flatten bytes) t w sent in
      let byte = number 0 bits in
      let some_left : (r 4 == 0) ≡ false = ground arith in
      let m₁ = record m { sampled = u } in
      let m₂ = record m { ram = ram_put m.ram i 0 byte; sampled = u } in
      let r₁ = set r 1 0x5C in
      let first =
        rom-branch board ram_chips rom 21 0 4 0 (pos 24) false r m refl (omega arith)
          (omega arith, omega arith, omega arith) refl some_left in
      let second =
        rom-jal board ram_chips rom 22 1 (pos 24) r m refl (omega arith) (omega arith) refl in
      let (r₂, run, (k1, k4, k5), k6) =
        Runs-byte board ram_chips rom bits t u 0x5C r₁ m at this below eight refl (omega arith)
          refl in
      let addr : (r₂ 5 + 0) % 2 ^ 32 % 256 ≡ 0xB0 + i = omega (arith, k5) in
      let third : step (chip_bus board ram_chips) (running 0x5C r₂, m₁) ≡ (running 0x60 r₂, m₂) =
        rom-instr board ram_chips rom 23 (sb 6 5 (pos 0)) r₂ m₁ refl (omega arith)
          (omega arith, omega arith, (omega arith, omega arith))
        ∙ ap (λ (p : ℕ). (running 0x60 r₂, write board ram_chips m₁ p 0 (r₂ 6))) addr
        ∙ ap (λ (v : ℕ). (running 0x60 r₂, write board ram_chips m₁ (0xB0 + i) 0 v)) k6
        ∙ ap (λ (n : Chip D). (running 0x60 r₂, n)) (write-ram m₁ i byte off (omega arith)) in
      let r₃ = set r₂ 5 (0xB0 + suc i) in
      let up : (r₂ 5 + 1) % 2 ^ 32 ≡ 0xB0 + suc i = omega (arith, k5) in
      let fourth : step (chip_bus board ram_chips) (running 0x60 r₂, m₂) ≡ (running 0x64 r₃, m₂) =
        rom-instr board ram_chips rom 24 (addi 5 5 (pos 1)) r₂ m₂ refl (omega arith)
          (omega arith, omega arith, (omega arith, omega arith))
        ∙ ap (λ (v : ℕ). (running 0x64 (set r₂ 5 v), m₂)) up in
      let r₄ = set r₃ 4 (length bytes) in
      let down : (r₂ 4 + 4294967295) % 2 ^ 32 ≡ length bytes = omega (arith, k4) in
      let fifth : step (chip_bus board ram_chips) (running 0x64 r₃, m₂) ≡ (running 0x68 r₄, m₂) =
        rom-instr board ram_chips rom 25 (addi 4 4 (neg 1)) r₃ m₂ refl (omega arith)
          (omega arith, omega arith, (omega arith, omega arith))
        ∙ ap (λ (v : ℕ). (running 0x68 (set r₃ 4 v), m₂)) down in
      let sixth =
        rom-jal board ram_chips rom 26 0 (neg 20) r₄ m₂ refl (omega arith) (omega arith) refl in
      let (r₅, rest) =
        Runs-load bytes (suc i) u w r₄ m₂ refl off later are refl refl (omega arith) in
      (
        r₅,
        Runs-step first (
            Runs-step second (
              Runs-trans run
                (Runs-step third (Runs-step fourth (Runs-step fifth (Runs-step sixth rest)))))),
      )
