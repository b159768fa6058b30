-- ===== src/Scripts/Ps2AsciiReceiver.antt =====
-- tools/build_ps2_ascii.py: the pages 1 to 22 of its image, which take in a frame of the keyboard. The
-- script has its own text of them.
use agil_a.Common.{
  ℕ, zero, suc, ◌+◌, ◌^◌, Result, ok, ◌>>=◌, ◌>>◌, ◌>=>◌, assert, none, ◌==◌, if◌then◌else◌,
}
use agil_a.Common.Int.{pos}
use agil_a.Asm.Encode.{andi, ori, lbu}
use agil_a.Asm.State.{op, label, beq, bne}
use agil_a.Paged.State.{PagedAsm, page, switch_to}

abbrev pub gpio_out : ℕ
gpio_out = 0xF0

abbrev pub gpio_in : ℕ
gpio_in = 0xF4

abbrev pub flash_page : ℕ
flash_page = 0xFC

-- `1 << CLOCK_BIT` and `1 << DATA_BIT`
abbrev pub clock_mask : ℕ
clock_mask = 2 ^ 3

abbrev pub data_mask : ℕ
data_mask = 2 ^ 4

abbrev pub accum : ℕ
accum = 4

unfoldable pub reserve_page : ℕ → PagedAsm → Result PagedAsm
reserve_page want p = assert (p.cur_page_num == want) >> ok p

unfoldable pub wait_clock : ℕ → ℕ → PagedAsm → Result PagedAsm
unfolding page op label beq bne switch_to
wait_clock level next_page =
    page (label "POLL")
    >=> page (op (lbu 1 0 (pos gpio_in)))
    >=> page (op (andi 2 1 (pos clock_mask)))
    >=> page (if level == 0 then bne 2 0 "POLL" else beq 2 0 "POLL")
    >=> switch_to (pos next_page) none

unfoldable pub wait_clock_low_and_sample : ℕ → ℕ → PagedAsm → Result PagedAsm
unfolding page op label beq bne switch_to
wait_clock_low_and_sample bit_value next_page =
    page (label "POLL")
    >=> page (op (lbu 1 0 (pos gpio_in)))
    >=> page (op (andi 2 1 (pos clock_mask)))
    >=> page (bne 2 0 "POLL")
    >=> page (op (andi 3 1 (pos data_mask)))
    >=> page (beq 3 0 "SKIP_SET")
    >=> page (op (ori accum accum (pos bit_value)))
    >=> page (label "SKIP_SET")
    >=> switch_to (pos next_page) none

-- `for bit_i in range(8)`, from round `bit_i` with `left` rounds to go; also the final `page_num`.
unfoldable pub bit_pages : ℕ → ℕ → ℕ → PagedAsm → Result (PagedAsm × ℕ)
unfolding reserve_page wait_clock_low_and_sample wait_clock
bit_pages zero bit_i page_num p = ok (p, page_num)
bit_pages (suc left) bit_i page_num p =
    (reserve_page page_num
        >=> wait_clock_low_and_sample (2 ^ bit_i) (page_num + 1)
        >=> reserve_page (page_num + 1)
        >=> wait_clock 1 (page_num + 1 + 1)
        >=> bit_pages left (bit_i + 1) (page_num + 1 + 1))
      p

-- Pages 1 to 22: the start bit, the data bits, the parity bit and the stop bit; also the number of
-- the page after them.
unfoldable pub frame_pages : PagedAsm → Result (PagedAsm × ℕ)
unfolding reserve_page wait_clock bit_pages
frame_pages p = do
  p ← (reserve_page 1 >=> wait_clock 0 2 >=> reserve_page 2 >=> wait_clock 1 3) p
  (p, parity_low) ← bit_pages 8 0 3 p
  let parity_high = parity_low + 1
  let stop_low = parity_high + 1
  let stop_high = parity_high + 2
  p ←
      (reserve_page parity_low
          >=> wait_clock 0 parity_high
          >=> reserve_page parity_high
          >=> wait_clock 1 (parity_high + 1)
          >=> reserve_page stop_low
          >=> wait_clock 0 stop_high
          >=> reserve_page stop_high
          >=> wait_clock 1 (stop_high + 1))
        p
  ok (p, stop_high + 1)
