-- ===== src/Chip/Examples/Rom.antt =====
-- An unaligned address of the boot ROM.
use agil_a.Common.{◌≡◌, arith, some}
use agil_a.Chip.Memory.{Board, word_at}
use agil_a.Chip.Examples.{memory, memory-HasBytes}
use agil_a.Scripts.BootRom.{hex_bytes}
use agil_a.Scripts.BootRom.Steps.{boot_words}
use agil_a.Scripts.BootRom.Rom.{boot_rom_bytes-words}
use agil_a.Scripts.BootRom.Body.{body_lines}
use agil_a.Scripts.BootRom.Files.{boot_rom_body-words}
use agil_a.Scripts.BootRom.Pair.{rom_word, rom_word-boot_rom_bytes}

abbrev with_rom : Board
with_rom = record { rom = memory (hex_bytes boot_words); flash = λ i. 0; sample = λ t at. 0 }

rom_word-boot_rom_bytes_example :
    rom_word (body_lines 0 boot_words) 0x1F ≡ some (word_at with_rom.rom 0x1F)
rom_word-boot_rom_bytes_example =
    rom_word-boot_rom_bytes with_rom (hex_bytes boot_words) (body_lines 0 boot_words) 0x1F
      boot_rom_bytes-words boot_rom_body-words (memory-HasBytes (hex_bytes boot_words))
      (omega arith)
