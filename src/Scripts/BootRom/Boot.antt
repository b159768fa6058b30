-- ===== src/Scripts/BootRom/Boot.antt =====
-- The boot ROM of tools/build_boot_rom.py on the chip, from the poll that sees START to the start of the
-- program that the host has sent.
use mathlib.Core.List.{flatten}
use agil_a.Common.{
  ℕ, suc, ◌+◌, ◌*◌, ◌/◌, ◌%◌, ◌^◌, ◌<◌, ◌≡◌, refl, sym, ap, subst, ◌∙◌, arith, true, false, bit_and,
  List, [], ◌∷◌, ◌++◌, length, map, ok,
}
use agil_a.Common.Int.{pos, mask}
use agil_a.Common.Bits.{bit_and-zero}
use agil_a.Common.Bits.Step.{bit_and_step}
use agil_a.Asm.Bytes.Laws.{AllBelow}
use agil_a.Asm.Encode.{add, addi, andi, lw}
use agil_a.Core.Alu.{branch_cond}
use agil_a.Core.Exec.{step, reg, set_reg}
use agil_a.Core.Meaning.{perform}
use agil_a.Core.Runs.{Runs, stop, running, set, Runs-step, Runs-trans}
use agil_a.Chip.Memory.{Board, Psram, Chip, chip_bus}
use agil_a.Chip.Image.{HasBytes}
use agil_a.Scripts.Ps2Reader.Pins.{pin}
use agil_a.Scripts.BootRom.{boot_rom_bytes}
use agil_a.Scripts.BootRom.Steps.{HasBootRom, rom-instr, rom-branch, rom-jal, read-pins}
use agil_a.Scripts.BootRom.Rom.{boot_rom_bytes-HasBootRom}
use agil_a.Scripts.BootRom.Wire.{Sent, number}
use agil_a.Scripts.BootRom.Byte.{Runs-byte}
use agil_a.Scripts.BootRom.Load.{
  loaded, loaded-HasBytes, AreBytes, Sent-append, number-below, Runs-load,
}

-- The bytes that are sent.
abbrev pub sent_bytes : List (List ℕ) → List ℕ
sent_bytes bytes = map (number 0) bytes

sent_bytes-below : (bytes : List (List ℕ)) → AreBytes bytes → AllBelow 256 (sent_bytes bytes)
sent_bytes-below [] are = tt
sent_bytes-below (bits ∷ bytes) (eight, below, are) = (
  number-below bits 0 256 below (subst (λ n. 1 * 2 ^ n < 257) (sym eight) (omega arith)),
  sent_bytes-below bytes are,
)

pub bit_and_pin2 : (v : ℕ) → bit_and v 4 ≡ v / 4 % 2 * 4
bit_and_pin2 v = omega (
  arith,
  bit_and_step v 4,
  bit_and_step (v / 2) 2,
  bit_and_step (v / 2 / 2) 1,
  bit_and-zero (v / 2 / 2 / 2),
)

module _ {D : Type 0} (board : Board) (ram_chips : Psram D) (rom : HasBootRom board) where
  -- The poll of MAIN_LOOP that sees START.
  Runs-start :
      (r : ℕ → ℕ) (m : Chip D)
      → pin board 2 m.sampled ≡ 1
      → (r' : ℕ → ℕ) × Runs
          (chip_bus board ram_chips)
          (running 0x1C r, m)
          (running 0x48 r', record m { sampled = suc m.sampled })
  unfolding perform branch_cond set_reg reg mask
  Runs-start r m is =
      let v : ℕ = board.sample m.sampled 0xF4 % 2 ^ 8 in
      let m₁ = record m { sampled = suc m.sampled } in
      let r₁ = set r 2 v in
      let first : step (chip_bus board ram_chips) (running 0x1C r, m) ≡ (running 0x20 r₁, m₁) =
        rom-instr board ram_chips rom 7 (lw 2 0 (pos 0xF4)) r m refl (omega arith)
          (omega arith, omega arith, (omega arith, omega arith))
        ∙ ap (λ (p : ℕ × Chip D). (running 0x20 (set r 2 p.0), p.1))
            (read-pins board ram_chips rom m) in
      let level : bit_and v 4 ≡ 4 = omega (arith, bit_and_pin2 v, is) in
      let second : step (chip_bus board ram_chips) (running 0x20 r₁, m₁)
          ≡ (running 0x24 (set r₁ 2 4), m₁) =
        rom-instr board ram_chips rom 8 (andi 2 2 (pos 4)) r₁ m₁ refl (omega arith)
          (omega arith, omega arith, (omega arith, omega arith))
        ∙ ap (λ (x : ℕ). (running 0x24 (set r₁ 2 x), m₁)) level in
      let third =
        rom-branch board ram_chips rom 9 1 2 0 (pos 36) true (set r₁ 2 4) m₁ refl (omega arith)
          (omega arith, omega arith, omega arith) refl refl in
      (set r₁ 2 4, Runs-step first (Runs-step second (Runs-step third stop)))

  -- START_SEEN: the length byte, then the loop over the bytes.
  Runs-boot :
      (size : List ℕ) (bytes : List (List ℕ)) (t w : ℕ) (r : ℕ → ℕ) (m : Chip D)
      → m.sampled ≡ t
      → m.flash_mode ≡ false
      → length size ≡ 8
      → AllBelow 2 size
      → number 0 size ≡ length bytes
      → length bytes < 45
      → AreBytes bytes
      → Sent board (size ++ flatten bytes) t w
      → (r' : ℕ → ℕ) × Runs
          (chip_bus board ram_chips)
          (running 0x48 r, m)
          (running 0xB4 r', record m { ram = loaded m.ram 4 (sent_bytes bytes); sampled = w })
  unfolding perform set_reg reg mask
  Runs-boot size bytes t w r m at off eight below counted fits are sent =
      let (u, this, later) = Sent-append board size (flatten bytes) t w sent in
      let m₁ = record m { sampled = u } in
      let first =
        rom-jal board ram_chips rom 18 1 (pos 40) r m refl (omega arith) (omega arith) refl in
      let (r₁, run, kept, k6) =
        Runs-byte board ram_chips rom size t u 0x4C (set r 1 0x4C) m at this below eight refl
          (omega arith) refl in
      let r₂ = set r₁ 4 (length bytes) in
      let count : (r₁ 6 + 0) % 2 ^ 32 ≡ length bytes = omega (arith, k6, counted) in
      let second : step (chip_bus board ram_chips) (running 0x4C r₁, m₁) ≡ (running 0x50 r₂, m₁) =
        rom-instr board ram_chips rom 19 (add 4 6 0) r₁ m₁ refl (omega arith)
          (omega arith, omega arith, omega arith)
        ∙ ap (λ (v : ℕ). (running 0x50 (set r₁ 4 v), m₁)) count in
      let third =
        rom-instr board ram_chips rom 20 (addi 5 0 (pos 0xB4)) r₂ m₁ refl (omega arith)
          (omega arith, omega arith, (omega arith, omega arith)) in
      let (r₃, rest) =
        Runs-load board ram_chips rom bytes 4 u w (set r₂ 5 0xB4) m₁ refl off later are refl refl
          (omega arith) in
      (r₃, Runs-step first (Runs-trans run (Runs-step second (Runs-step third rest))))

module _ {D : Type 0} (board : Board) (ram_chips : Psram D) where
  -- The chip's ROM holds the bytes of the boot ROM, FLASH_MODE is off, and the core polls at MAIN_LOOP.
  -- When that poll sees START and the host then clocks in a length byte of at most 44 and that many
  -- bytes, each with its highest bit first, the core comes to 0xB4 with the bytes stored one by one
  -- from 0xB4 on, so that the RAM holds them there in their order, and with nothing else in the memory
  -- map changed.
  pub boot_rom-loads :
      (image size : List ℕ) (bytes : List (List ℕ)) (w : ℕ) (r : ℕ → ℕ) (m : Chip D)
      → boot_rom_bytes ≡ ok image
      → HasBytes board.rom 0 image
      → m.flash_mode ≡ false
      → pin board 2 m.sampled ≡ 1
      → length size ≡ 8
      → AllBelow 2 size
      → number 0 size ≡ length bytes
      → length bytes < 45
      → AreBytes bytes
      → Sent board (size ++ flatten bytes) (suc m.sampled) w
      → (r' : ℕ → ℕ) × Runs
          (chip_bus board ram_chips)
          (running 0x1C r, m)
          (running 0xB4 r', record m { ram = loaded m.ram 4 (sent_bytes bytes); sampled = w })
        × HasBytes (loaded m.ram 4 (sent_bytes bytes)) 4 (sent_bytes bytes)
  boot_rom-loads image size bytes w r m built holds off start eight below counted fits are sent =
      let rom = boot_rom_bytes-HasBootRom board image built holds in
      let (r₁, polled) = Runs-start board ram_chips rom r m start in
      let (r₂, run) =
        Runs-boot board ram_chips rom size bytes (suc m.sampled) w r₁
          (record m { sampled = suc m.sampled }) refl off eight below counted fits are sent in
      (
        r₂,
        Runs-trans polled run,
        loaded-HasBytes (sent_bytes bytes) m.ram 4 (sent_bytes-below bytes are),
      )
