-- ===== src/Scripts/Canary.antt =====
-- tools/build_flash_canary.py
pub mod Spins
use agil_a.Common.{ℕ, List, Result, ◌>=>◌}
use agil_a.Common.Int.{pos}
use agil_a.Asm.Encode.{addi, sw}
use agil_a.Asm.State.{asm, op, label, jal_to}
use agil_a.Asm.Finalize.{finalize}
use agil_a.Asm.Bytes.{words_to_bytes}

abbrev canary_value : ℕ
canary_value = 0x2A

abbrev pub gpio_out : ℕ
gpio_out = 0xF0

-- `prog_bytes`
unfoldable pub canary : Result (List ℕ)
unfolding op label jal_to finalize words_to_bytes
canary =
    (op (addi 0 0 (pos 0))
        >=> op (addi 5 0 (pos canary_value))
        >=> op (sw 5 0 (pos gpio_out))
        >=> label "SPIN"
        >=> jal_to 0 "SPIN"
        >=> finalize
        >=> words_to_bytes)
      (asm 0)
