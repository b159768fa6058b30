-- ===== src/Chip/Window.antt =====
-- FLASH_MODE of src/mem.v, and the program in the RAM behind its window.
use agil_a.Common.{ℕ, ◌-◌, ◌<◌, ◌≤◌, ◌≡◌, refl, ◌∙◌, arith, true, ◌&&◌, leb, ltb, ◌==◌}
use agil_a.Core.Exec.{Core}
use agil_a.Core.Runs.{Runs}
use agil_a.Core.Invariant.{either, either_when, Runs-keeps}
use agil_a.Chip.Memory.{
  Board, Psram, Chip, read, write, chip_bus, in_ram, in_ext_flash, ram_put, register_put,
  is_sampled,
}

-- FLASH_MODE is on, and the RAM from 0xB5 on is as it was.
abbrev pub IsLocked : {D : Type 0} → (ℕ → ℕ) → Chip D → Type 0
IsLocked ram m = (m.flash_mode ≡ true) × ((i : ℕ) → 4 < i → m.ram i ≡ ram i)

module _ {D : Type 0} (board : Board) (ram_chips : Psram D) (ram : ℕ → ℕ) where
  read-IsLocked :
      (m : Chip D) (at size : ℕ) → IsLocked ram m → IsLocked ram (read board ram_chips m at size).1
  unfolding read
  read-IsLocked m at size h =
      let P = λ (p : ℕ × Chip D). IsLocked ram p.1 in
      either P (ltb at 176) h (
        either P (in_ram m at) h (
          either P (in_ext_flash m at) h
            (either P (leb 0xE0 at && ltb at 0xF0) h (either P (is_sampled at) h h))))

  in_ram-low :
      (m : Chip D) (at : ℕ) → m.flash_mode ≡ true → in_ram m at ≡ true → (176 ≤ at) × (at < 180)
  unfolding in_ram in_ext_flash
  in_ram-low m at on inside = ground arith

  -- A store to the RAM reaches its first word, and a half-word at 0xB3 the byte behind it.
  ram_put-low :
      (m : Chip D) (at size v i : ℕ)
      → m.flash_mode ≡ true
      → in_ram m at ≡ true
      → 4 < i
      → ram_put m.ram (at - 0xB0) size v i ≡ m.ram i
  unfolding ram_put
  ram_put-low m at size v i on inside h =
      let (from, below) = in_ram-low m at on inside in ground arith

  register_put-IsLocked :
      (m : Chip D) (at v : ℕ) → IsLocked ram m → IsLocked ram (register_put m at v)
  unfolding register_put
  register_put-IsLocked m at v h =
      let P = IsLocked ram in
      either P (at == 0xF0) h (
        either P (at == 0xF1) h (
          either P (at == 0xF5) h (
            either P (at == 0xF7) h (
              either P (at == 0xF8) (refl, h.1)
                (either P (at == 0xF9) h (
                  either P (at == 0xFA) h
                    (either P (at == 0xFB) h (either P (at == 0xFC) h h))))))))

  write-IsLocked :
      (m : Chip D) (at size v : ℕ)
      → IsLocked ram m
      → IsLocked ram (write board ram_chips m at size v)
  unfolding write
  write-IsLocked m at size v (on, same) =
      let P = IsLocked ram in
      either_when P (in_ram m at)
        (λ inside. (on, λ i h. ram_put-low m at size v i on inside h ∙ same i h))
        (λ outside.
          either P (leb 0xE0 at && ltb at 0xF0) (on, same)
            (register_put-IsLocked m at v (on, same)))

module _ {D : Type 0} (board : Board) (ram_chips : Psram D) where
  -- Once FLASH_MODE is on, no execution of any instructions turns it off or changes the RAM from 0xB5
  -- on.
  pub Runs-IsLocked :
      (m n : Chip D) (c d : Core)
      → m.flash_mode ≡ true
      → Runs (chip_bus board ram_chips) (c, m) (d, n)
      → (n.flash_mode ≡ true) × ((i : ℕ) → 4 < i → n.ram i ≡ m.ram i)
  Runs-IsLocked m n c d on run =
      Runs-keeps (chip_bus board ram_chips) (IsLocked m.ram) (read-IsLocked board ram_chips m.ram)
        (write-IsLocked board ram_chips m.ram) run (on, λ i h. refl)
