-- ===== src/Scripts/Examples.antt =====
-- Images of the scripts, as the .hex files of tools/ hold them.
use agil_a.Common.{
  ℕ, List, [], ◌∷◌, ◌≡◌, refl, ok, ◌+◌, ◌-◌, ◌*◌, ◌/◌, ◌%◌, ◌^◌, arith, false, get_elem?, Option,
  none, some, ltb, ◌>>=◌, if◌then◌else◌,
}
use agil_a.Asm.Bytes.Laws.{to_bytes}
use agil_a.Asm.State.{asm}
use agil_a.Asm.Finalize.{finalize}
use agil_a.Scripts.BootRom.{boot_calls}
use agil_a.Scripts.BootRom.Body.{codes, arm_line, body_lines}
use agil_a.Scripts.BootRom.Case.{rom_word_at, rom_word_at-body_lines}
use agil_a.Scripts.BootRom.Assembler.{assembler, run, finish}
use agil_a.Scripts.BootRom.Assembler.Same.{library_run, run-library_run}
use agil_a.Core.Exec.{Core, Bus, reg}
use agil_a.Paged.Layout.{with_cur, emit_all, next_page}
use agil_a.Paged.Run.{exec_all}
use agil_a.Scripts.St7789.{load_const32, delay_page}
use agil_a.Scripts.St7789.Constants.{load_const32-loads}
use agil_a.Scripts.St7789.DelayLoop.{steps, Serves, EndsDelay}
use agil_a.Scripts.St7789.Delay.{fresh_page, delay_words, delay_page-low, delay_page-counts}
use agil_a.Scripts.Canary.{canary}
use agil_a.Scripts.Handoff.{handoff_stub}
use agil_a.Scripts.HexFiles.{build_flash_canary, canary_hex, Written, hex_of-Written}

-- The calls of the boot ROM's script, on both assemblers.
run-library_run_example :
    (run boot_calls assembler >>= finish) ≡ (library_run boot_calls (asm 0) >>= finalize)
run-library_run_example = run-library_run boot_calls

-- tools/flash_canary.hex
canary_image :
    canary
    ≡ ok (
        0x13 ∷ 0x00 ∷ 0x00 ∷ 0x00 ∷ 0x93 ∷ 0x02 ∷ 0xa0 ∷ 0x02 ∷ 0x23 ∷ 0x28 ∷ 0x50 ∷ 0x0e ∷ 0x6f
        ∷ 0x00 ∷ 0x00 ∷ 0x00 ∷ [])
unfolding canary
canary_image = refl

-- tools/flash_handoff_stub.hex
handoff_image : handoff_stub ≡ ok (0x23 ∷ 0x2c ∷ 0x00 ∷ 0x0e ∷ [])
unfolding handoff_stub
handoff_image = refl

-- The words of the delay page of count 20, from 0xB4 on.
abbrev word_or_zero : Option ℕ → ℕ
word_or_zero none = 0
word_or_zero (some w) = w

abbrev delay_bus : Bus ℕ
delay_bus = record {
  read = λ m at size. (word_or_zero (get_elem? (delay_words 20 10) ((at - 0xB4) / 4)), m);
  write = λ m at size v. m;
}

abbrev idle_core : Core
idle_core = record { pc = 0xB4; regs = λ r. 0; halted = false }

delay_bus-Serves : Serves delay_bus 0 0xB4 (delay_words 20 10)
delay_bus-Serves =
    (refl, (refl, (refl, (refl, (refl, (refl, (refl, (refl, (refl, (refl, (refl, tt)))))))))))

delay_page-counts_example :
    (delay_page 20 10 (fresh_page [] 9)
      ≡ ok (next_page (fresh_page [] 9) (to_bytes (delay_words 20 10))))
    × EndsDelay delay_bus 0 (steps delay_bus (20 * 3 + 2) (idle_core, 0))
delay_page-counts_example =
    delay_page-counts delay_bus idle_core 0 [] 9 20 10 (omega arith) delay_bus-Serves refl refl

-- The count for the real panel.
delay_page-low_example :
    delay_page 2000000 10 (fresh_page [] 9) ≡ delay_page (2000000 % 4096) 10 (fresh_page [] 9)
delay_page-low_example = delay_page-low 2000000 10 (fresh_page [] 9)

-- The pixel count of a panel of 240 by 240.
load_const32-loads_example :
    (ws : List ℕ) × (load_const32 5 57600 8 (fresh_page [] 0)
      ≡ ok (with_cur (fresh_page [] 0) (emit_all ws (fresh_page [] 0).cur)))
    × (reg (exec_all delay_bus ws idle_core 0).0 5
        ≡ (if ltb (57600 % 4096) 2048 then 57600 else (57600 + 2 ^ 32 - 4096) % 2 ^ 32))
    × ((exec_all delay_bus ws idle_core 0).1 ≡ 0)
load_const32-loads_example =
    load_const32-loads delay_bus idle_core 0 (fresh_page [] 0) 5 57600 8 (omega arith) (omega arith)
      (omega arith) (omega arith) (omega arith) (omega arith) (λ e. omega (arith, e))

-- tools/flash_canary.hex, as a text
hex_of-Written_example : Written canary canary_hex
hex_of-Written_example = hex_of-Written build_flash_canary

-- Two lines of tools/boot_rom_body.vh
arm_line_test :
    (arm_line 0 0x0a500113 ≡ codes "                6'd0: rom_word_at = 32'h0a500113;\n")
    × (arm_line 43 0x00008067 ≡ codes "                6'd43: rom_word_at = 32'h00008067;\n")
unfolding arm_line
arm_line_test = (refl, refl)

rom_word_at-body_lines_example :
    rom_word_at (body_lines 0 (0x0a500113 ∷ 0x00008067 ∷ [])) 1 ≡ some 0x00008067
rom_word_at-body_lines_example =
    rom_word_at-body_lines (0x0a500113 ∷ 0x00008067 ∷ []) 1 (omega arith, (omega arith, tt))
      (omega arith)
