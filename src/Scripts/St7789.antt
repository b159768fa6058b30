-- ===== src/Scripts/St7789.antt =====
-- tools/build_st7789_flash_image.py: the flash image of the LCD driver, with the simulation sizes
-- that the script selects (`USE_SIM_PANEL_SIZE = True`) as the arguments of `st7789`.
pub mod Constants
pub mod DelayLoop
pub mod Delay
use agil_a.Common.{
  ℕ, zero, suc, ◌+◌, ◌-◌, List, Result, ok, ◌>>=◌, ◌>>◌, ◌>=>◌, assert, none, ltb, ◌==◌,
  if◌then◌else◌,
}
use agil_a.Common.Int.{pos, neg}
use agil_a.Common.Bits.{◌>>>◌, ◌&&&◌, ◌|||◌, ◌<<<◌}
use agil_a.Asm.Encode.{add, addi, slli, sw}
use agil_a.Asm.State.{op, label, beq, bne, jal_to}
use agil_a.Paged.State.{
  PagedAsm, paged_asm, page, switch_to, switch_to_computed, finalize_last_page, image,
}
use agil_a.Scripts.Ps2Reader.{gpio_out, flash_page, reserve_page}

abbrev pub panel_width : ℕ
panel_width = 240

abbrev pub panel_height : ℕ
panel_height = 240

abbrev pub madctl_value : ℕ
madctl_value = 0x00

abbrev pub fill_color : ℕ
fill_color = 0xF800

abbrev pub sim_pixel_count : ℕ
sim_pixel_count = 3

abbrev pub sim_delay_count : ℕ
sim_delay_count = 20

abbrev pub dc_cmd : ℕ
dc_cmd = 0

abbrev pub dc_data : ℕ
dc_data = 1 <<< 2

-- `setup_val` of bit `i` of a byte, the highest first.
unfoldable pub setup_val : ℕ → ℕ → ℕ → ℕ
setup_val byte_val dc_bit i =
    let bit = byte_val >>> (7 - i) &&& 1 in let mosi = bit <<< 1 in dc_bit ||| mosi

-- One page's code: MOSI and DC with SCK low, then SCK high.
unfoldable pub send_bit : ℕ → ℕ → ℕ → PagedAsm → Result PagedAsm
unfolding setup_val page op
send_bit byte_val dc_bit i =
    page (op (addi 2 0 (pos (setup_val byte_val dc_bit i))))
    >=> page (op (sw 2 0 (pos gpio_out)))
    >=> page (op (addi 2 0 (pos (setup_val byte_val dc_bit i ||| 1))))
    >=> page (op (sw 2 0 (pos gpio_out)))

-- `for i in range(8)` of `emit_byte_pages`, from `i` with `left` rounds to go.
unfoldable pub byte_pages : ℕ → ℕ → ℕ → ℕ → ℕ → PagedAsm → Result PagedAsm
unfolding send_bit switch_to
byte_pages zero i byte_val dc_bit next_page_after p = ok p
byte_pages (suc left) i byte_val dc_bit next_page_after p =
    (send_bit byte_val dc_bit i
        >=> (λ p. switch_to (pos (if i == 7 then next_page_after else p.cur_page_num + 1)) none p)
        >=> byte_pages left (i + 1) byte_val dc_bit next_page_after)
      p

unfoldable pub emit_byte_pages : ℕ → ℕ → ℕ → PagedAsm → Result PagedAsm
unfolding byte_pages
emit_byte_pages byte_val dc_bit next_page_after = byte_pages 8 0 byte_val dc_bit next_page_after

unfoldable pub emit_cmd : ℕ → ℕ → PagedAsm → Result PagedAsm
unfolding emit_byte_pages
emit_cmd byte_val next_page_after = emit_byte_pages byte_val dc_cmd next_page_after

unfoldable pub emit_data : ℕ → ℕ → PagedAsm → Result PagedAsm
unfolding emit_byte_pages
emit_data byte_val next_page_after = emit_byte_pages byte_val dc_data next_page_after

unfoldable pub load_const32 : ℕ → ℕ → ℕ → PagedAsm → Result PagedAsm
unfolding page op
load_const32 rd value scratch p = do
  assert (ltb value (1 <<< 24))
  let lo = value &&& 0xFFF
  let hi = value >>> 12
  p₁ ← page (op (addi rd 0 (pos lo))) p
  if hi == 0
      then ok p₁
      else (page (op (addi scratch 0 (pos hi)))
            >=> page (op (slli scratch scratch (pos 12)))
            >=> page (op (add rd rd scratch)))
          p₁

-- Pages 9 and 18: the delay loop.
unfoldable pub delay_page : ℕ → ℕ → PagedAsm → Result PagedAsm
unfolding page op label beq jal_to switch_to
delay_page delay_count next =
    page (op (addi 2 0 (pos delay_count)))
    >=> page (label "DELAY_LOOP")
    >=> page (beq 2 0 "DELAY_DONE")
    >=> page (op (addi 2 2 (neg 1)))
    >=> page (jal_to 0 "DELAY_LOOP")
    >=> page (label "DELAY_DONE")
    >=> switch_to (pos next) none

-- Pages 0 to 146: the init sequence.
unfoldable pub init_pages : ℕ → ℕ → PagedAsm → Result PagedAsm
unfolding reserve_page page op load_const32 switch_to emit_cmd emit_data delay_page
init_pages pixel_count delay_count =
    reserve_page 0
    >=> page (op (addi 2 0 (pos 0)))
    >=> page (op (sw 2 0 (pos gpio_out)))
    >=> load_const32 5 pixel_count 8
    >=> switch_to (pos 1) none
    >=> reserve_page 1
    >=> emit_cmd 0x01 9
    >=> reserve_page 9
    >=> delay_page delay_count 10
    >=> reserve_page 10
    >=> emit_cmd 0x11 18
    >=> reserve_page 18
    >=> delay_page delay_count 19
    >=> reserve_page 19
    >=> emit_cmd 0x3A 27
    >=> reserve_page 27
    >=> emit_data 0x05 35
    >=> reserve_page 35
    >=> emit_cmd 0x36 43
    >=> reserve_page 43
    >=> emit_data madctl_value 51
    >=> reserve_page 51
    >=> emit_cmd 0x2A 59
    >=> reserve_page 59
    >=> emit_data 0 67
    >=> reserve_page 67
    >=> emit_data 0 75
    >=> reserve_page 75
    >=> emit_data ((panel_width - 1) >>> 8) 83
    >=> reserve_page 83
    >=> emit_data ((panel_width - 1) &&& 0xFF) 91
    >=> reserve_page 91
    >=> emit_cmd 0x2B 99
    >=> reserve_page 99
    >=> emit_data 0 107
    >=> reserve_page 107
    >=> emit_data 0 115
    >=> reserve_page 115
    >=> emit_data ((panel_height - 1) >>> 8) 123
    >=> reserve_page 123
    >=> emit_data ((panel_height - 1) &&& 0xFF) 131
    >=> reserve_page 131
    >=> emit_cmd 0x29 139
    >=> reserve_page 139
    >=> emit_cmd 0x2C 147

abbrev pub ring_start : ℕ
ring_start = 147

abbrev pub ring_len : ℕ
ring_len = 16

abbrev pub ctrl_page : ℕ
ctrl_page = ring_start + ring_len

abbrev pub done_page : ℕ
done_page = ctrl_page + 1

-- The two loops of the fill ring, as one over the sixteen bits of the color: round `bit_num`, of
-- byte `bit_num / 8`, with `left` rounds to go.
unfoldable pub ring_pages : ℕ → ℕ → PagedAsm → Result PagedAsm
unfolding send_bit switch_to
ring_pages zero bit_num p = ok p
ring_pages (suc left) bit_num p =
    let byte_val = if ltb bit_num 8 then fill_color >>> 8 &&& 0xFF else fill_color &&& 0xFF in
    (send_bit byte_val dc_data (if ltb bit_num 8 then bit_num else bit_num - 8)
        >=> (λ p.
            switch_to (pos (if bit_num + 1 == ring_len then ctrl_page else p.cur_page_num + 1)) none
              p)
        >=> ring_pages left (bit_num + 1))
      p

-- The control page of the ring.
unfoldable pub control_page : PagedAsm → Result PagedAsm
unfolding reserve_page page op label bne jal_to switch_to_computed
control_page =
    reserve_page ctrl_page
    >=> page (op (addi 5 5 (neg 1)))
    >=> page (bne 5 0 "NOT_DONE")
    >=> page (op (addi 30 0 (pos done_page)))
    >=> page (jal_to 0 "CONVERGE")
    >=> page (label "NOT_DONE")
    >=> page (op (addi 30 0 (pos ring_start)))
    >=> page (label "CONVERGE")
    >=> switch_to_computed none

-- `image`
unfoldable pub st7789 : ℕ → ℕ → Result (List ℕ)
unfolding paged_asm init_pages reserve_page ring_pages control_page page label jal_to
    finalize_last_page image
st7789 pixel_count delay_count = do
  p ← paged_asm 0xB4 44 flash_page 30
  p ← init_pages pixel_count delay_count p
  p ←
      (reserve_page ring_start
          >=> ring_pages ring_len 0
          >=> control_page
          >=> reserve_page done_page
          >=> page (label "SPIN")
          >=> page (jal_to 0 "SPIN")
          >=> finalize_last_page none)
        p
  ok (image p)

unfoldable pub st7789_sim : Result (List ℕ)
unfolding st7789
st7789_sim = st7789 sim_pixel_count sim_delay_count
