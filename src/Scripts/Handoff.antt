-- ===== src/Scripts/Handoff.antt =====
-- tools/build_flash_handoff_stub.py: the one-instruction stub.
pub mod Starts
use agil_a.Common.{ℕ, List, Result, ok, ◌>>=◌, ◌>>◌, ◌>=>◌, assert, length, leb}
use agil_a.Common.Int.{pos}
use agil_a.Asm.Encode.{sw}
use agil_a.Asm.State.{asm, op}
use agil_a.Asm.Finalize.{finalize}
use agil_a.Asm.Bytes.{words_to_bytes}

abbrev pub flash_mode : ℕ
flash_mode = 0xF8

-- `prog_bytes`
unfoldable pub handoff_stub : Result (List ℕ)
unfolding op finalize words_to_bytes
handoff_stub = do
  prog_bytes ← (op (sw 0 0 (pos flash_mode)) >=> finalize >=> words_to_bytes) (asm 0)
  assert (leb (length prog_bytes) 44)
  ok prog_bytes
