-- ===== src/Chip/Memory.antt =====
-- src/mem.v: the address map behind the core's bus, one access at a time. The pins, the flash chip
-- and the PSRAM chips stand outside the design and are parameters; so are the values of the registers
-- that the clock or a pin drives (the timer's, GPIO_IN and the last SPI byte), one for each read.
use agil_a.Common.{
  ℕ, suc, ◌+◌, ◌-◌, ◌*◌, ◌/◌, ◌%◌, ◌^◌, Bool, true, false, ◌&&◌, ◌||◌, List, ◌∷◌, ltb, leb, ◌==◌,
  if◌then◌else◌,
}
use agil_a.Core.Exec.{Bus}

-- What is wired to the chip: the bytes of its ROM and of the flash, and the value of register `at`
-- when a clock-driven register or an input is read for the `k`-th time, `sample k at`.
pub record Board : Type 0 where
  pub rom : ℕ → ℕ
  pub flash : ℕ → ℕ
  pub sample : ℕ → ℕ → ℕ

-- The two PSRAM chips, as devices 2 and 3 of the QSPI engine: a read and a write of an address, with
-- the access size.
pub record Psram (D : Type 0) : Type 0 where
  pub get : D → ℕ → ℕ → ℕ → ℕ × D
  pub put : D → ℕ → ℕ → ℕ → ℕ → D

-- The registers of the module. `ram` holds bytes, from RAM_BASE on; `sampled` counts the reads of
-- sampled registers, and `written` has the values written to GPIO_OUT, the last in front.
pub record Chip (D : Type 0) : Type 0 where
  pub ram : ℕ → ℕ
  pub gpio_out : ℕ
  pub psram_bank : ℕ
  pub flash_mode : Bool
  pub flash_page : ℕ
  pub qspi_div_sel : ℕ
  pub timer_enable : ℕ
  pub pwm_duty : ℕ
  pub pwm_enable : ℕ
  pub pin_mux : ℕ
  pub psram : D
  pub sampled : ℕ
  pub written : List ℕ

abbrev pub load_base : ℕ
load_base = 0xB4

abbrev pub window_bytes : ℕ
window_bytes = 44

-- Four bytes, the lowest first, and what an external read of `size` returns.
abbrev pub word_at : (ℕ → ℕ) → ℕ → ℕ
word_at bytes at =
    bytes at + bytes (at + 1) * 2 ^ 8 + bytes (at + 2) * 2 ^ 16 + bytes (at + 3) * 2 ^ 24

abbrev pub sized : (ℕ → ℕ) → ℕ → ℕ → ℕ
sized bytes at size =
    if size == 0
    then bytes at
    else if size == 1
    then bytes at + bytes (at + 1) * 2 ^ 8
    else word_at bytes at

-- TIMER's two bytes, GPIO_IN, the timer's overflow bit and the last SPI byte.
unfoldable pub is_sampled : ℕ → Bool
is_sampled addr = addr == 0xF2 || addr == 0xF3 || addr == 0xF4 || addr == 0xF6 || addr == 0xFD

-- `ram_words` after a write of `size`; a word goes to the aligned address.
unfoldable pub ram_put : (ℕ → ℕ) → ℕ → ℕ → ℕ → ℕ → ℕ
ram_put ram at size wdata i =
    if size == 0
    then if i == at then wdata % 2 ^ 8 else ram i
    else if size == 1
    then if i == at then wdata % 2 ^ 8 else if i == at + 1 then wdata / 2 ^ 8 % 2 ^ 8 else ram i
    else if i / 4 == at / 4
    then wdata / 2 ^ (i % 4 * 8) % 2 ^ 8
    else ram i

module _ {D : Type 0} where
  -- `in_ext_flash`
  unfoldable pub in_ext_flash : Chip D → ℕ → Bool
  in_ext_flash m addr = m.flash_mode && (leb load_base addr && ltb addr 0xE0)

  unfoldable pub in_ram : Chip D → ℕ → Bool
  unfolding in_ext_flash
  in_ram m addr = (leb 0xB0 addr && ltb addr 0xE0) && (if in_ext_flash m addr then false else true)

  -- `flash_page_base + (addr - LOAD_BASE)`
  unfoldable pub flash_addr : Chip D → ℕ → ℕ
  flash_addr m addr = m.flash_page * window_bytes + (addr - load_base)

  -- `req_dev` for a PSRAM access.
  unfoldable pub psram_dev : Chip D → ℕ
  psram_dev m = if m.psram_bank == 1 then 3 else 2

  -- The registers that the bus alone changes.
  unfoldable pub register : Chip D → ℕ → ℕ
  register m addr =
      if addr == 0xF0
      then m.gpio_out
      else if addr == 0xF1
      then m.psram_bank
      else if addr == 0xF5
      then m.timer_enable
      else if addr == 0xF7
      then m.pwm_duty
      else if addr == 0xF9
      then m.pwm_enable
      else if addr == 0xFA
      then m.pin_mux
      else if addr == 0xFB
      then m.qspi_div_sel
      else if addr == 0xFC
      then m.flash_page
      else 0

  -- The writes to single registers.
  unfoldable pub register_put : Chip D → ℕ → ℕ → Chip D
  register_put m addr wdata =
      if addr == 0xF0
      then record m { gpio_out = wdata % 2 ^ 8; written = (wdata % 2 ^ 8) ∷ m.written }
      else if addr == 0xF1
      then record m { psram_bank = wdata % 2 }
      else if addr == 0xF5
      then record m { timer_enable = wdata % 2 }
      else if addr == 0xF7
      then record m { pwm_duty = wdata % 2 ^ 8 }
      else if addr == 0xF8
      then record m { flash_mode = true }
      else if addr == 0xF9
      then record m { pwm_enable = wdata % 2 }
      else if addr == 0xFA
      then record m { pin_mux = wdata % 4 }
      else if addr == 0xFB
      then record m { qspi_div_sel = wdata % 4 }
      else if addr == 0xFC
      then record m { flash_page = wdata % 2 ^ 8 }
      else m

  module _ (board : Board) (ram_chips : Psram D) where
    unfoldable pub read : Chip D → ℕ → ℕ → ℕ × Chip D
    unfolding in_ram in_ext_flash flash_addr psram_dev register is_sampled
    read m addr size =
        if ltb addr 176
        then (word_at board.rom addr, m)
        else if in_ram m addr
        then (word_at m.ram (addr - 0xB0), m)
        else if in_ext_flash m addr
        then (sized board.flash (flash_addr m addr) size, m)
        else if leb 0xE0 addr && ltb addr 0xF0
        then (let (v, d) = ram_chips.get m.psram (psram_dev m) (addr - 0xE0) size in
            (v, record m { psram = d }))
        else if is_sampled addr
        then (
          board.sample m.sampled addr % (if addr == 0xF6 then 2 else 2 ^ 8),
          record m { sampled = suc m.sampled },
        )
        else (register m addr, m)

    -- A write to the window under FLASH_MODE, or to the ROM, changes nothing.
    unfoldable pub write : Chip D → ℕ → ℕ → ℕ → Chip D
    unfolding in_ram in_ext_flash psram_dev register_put ram_put
    write m addr size wdata =
        if in_ram m addr
        then record m { ram = ram_put m.ram (addr - 0xB0) size wdata }
        else if leb 0xE0 addr && ltb addr 0xF0
        then record m { psram = ram_chips.put m.psram (psram_dev m) (addr - 0xE0) size wdata }
        else register_put m addr wdata

    abbrev pub chip_bus : Bus (Chip D)
    chip_bus = record { read = read; write = write }
