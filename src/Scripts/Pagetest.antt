-- ===== src/Scripts/Pagetest.antt =====
-- tools/build_flash_pagetest.py
pub mod Shows
use agil_a.Common.{ℕ, ◌*◌, none, List, Result, ok, ◌>>=◌, ◌>>◌, assert, length, ◌==◌}
use agil_a.Common.Int.{pos}
use agil_a.Asm.Encode.{addi, sw}
use agil_a.Asm.State.{op, label, bne, jal_to}
use agil_a.Paged.State.{paged_asm, page, switch_to, switch_to_computed, finalize_last_page, image}

-- `image`
unfoldable pub pagetest : Result (List ℕ)
unfolding paged_asm page op label bne jal_to switch_to switch_to_computed finalize_last_page image
pagetest = do
  p ← paged_asm 0xB4 44 0xFC 30
  p ← page (op (addi 5 0 (pos 0))) p
  p ← page (op (addi 2 0 (pos 0x11))) p
  p ← page (op (sw 2 0 (pos 0xF0))) p
  p ← switch_to (pos 1) none p
  p ← page (op (addi 2 0 (pos 0x22))) p
  p ← page (op (sw 2 0 (pos 0xF0))) p
  p ← page (bne 5 0 "GOTO_PAGE2") p
  p ← page (op (addi 5 0 (pos 1))) p
  p ← page (op (addi 30 0 (pos 1))) p
  p ← page (jal_to 0 "CONVERGE") p
  p ← page (label "GOTO_PAGE2") p
  p ← page (op (addi 30 0 (pos 2))) p
  p ← page (label "CONVERGE") p
  p ← switch_to_computed none p
  p ← page (op (addi 2 0 (pos 0x33))) p
  p ← page (op (sw 2 0 (pos 0xF0))) p
  p ← switch_to (pos 3) none p
  p ← page (op (addi 2 0 (pos 0x44))) p
  p ← page (op (sw 2 0 (pos 0xF0))) p
  p ← page (label "SPIN") p
  p ← page (jal_to 0 "SPIN") p
  p ← finalize_last_page none p
  let image = image p
  assert (length image == 4 * 44)
  ok image
