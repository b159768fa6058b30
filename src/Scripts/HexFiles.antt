-- ===== src/Scripts/HexFiles.antt =====
-- The .hex file of each script of tools/, which the test benches and the boards load.
use mathlib.Core.List.{flatten}
use agil_a.Common.{
  ℕ, ◌≡◌, refl, Bool, true, false, some, List, [], ◌∷◌, ltb, ltb→lt, ◌&&◌, Result, ok, err, ◌>>=◌,
}
use agil_a.Asm.Bytes.Laws.{AllBelow}
use agil_a.Chip.Image.{&&-both}
use agil_a.Scripts.Canary.{canary}
use agil_a.Scripts.Pagetest.{pagetest}
use agil_a.Scripts.Ps2Reader.{ps2_reader}
use agil_a.Scripts.Ps2Ascii.{ps2_ascii}
use agil_a.Scripts.St7789.{st7789_sim}
use agil_a.Scripts.Handoff.{handoff_stub}
use agil_a.Scripts.AluTest.{alu_test}
use agil_a.Scripts.BootRom.{boot_rom_bytes}
use agil_a.Scripts.Hex.{hex_file, read_hex, read_hex-hex_file}

abbrev pub canary_hex : Result (List ℕ)
canary_hex = canary >>= λ prog_bytes. ok (hex_file prog_bytes)

abbrev pub pagetest_hex : Result (List ℕ)
pagetest_hex = pagetest >>= λ image. ok (hex_file image)

abbrev pub ps2_reader_hex : Result (List ℕ)
ps2_reader_hex = ps2_reader >>= λ image. ok (hex_file image)

abbrev pub ps2_ascii_hex : Result (List ℕ)
ps2_ascii_hex = ps2_ascii >>= λ image. ok (hex_file image)

abbrev pub st7789_hex : Result (List ℕ)
st7789_hex = st7789_sim >>= λ image. ok (hex_file image)

abbrev pub handoff_stub_hex : Result (List ℕ)
handoff_stub_hex = handoff_stub >>= λ prog_bytes. ok (hex_file prog_bytes)

abbrev pub alu_test_hex : Result (List ℕ)
alu_test_hex = alu_test >>= λ padded. ok (hex_file padded)

abbrev pub boot_rom_hex : Result (List ℕ)
boot_rom_hex = boot_rom_bytes >>= λ bytes. ok (hex_file bytes)

-- The scripts that write a .hex file, their images and the texts of the files.
pub data Script : Type 0 where
  build_flash_canary : Script
  build_flash_pagetest : Script
  build_ps2_reader : Script
  build_ps2_ascii : Script
  build_st7789_flash_image : Script
  build_flash_handoff_stub : Script
  build_alu_test : Script
  build_boot_rom : Script

abbrev pub image_of : Script → Result (List ℕ)
image_of build_flash_canary = canary
image_of build_flash_pagetest = pagetest
image_of build_ps2_reader = ps2_reader
image_of build_ps2_ascii = ps2_ascii
image_of build_st7789_flash_image = st7789_sim
image_of build_flash_handoff_stub = handoff_stub
image_of build_alu_test = alu_test
image_of build_boot_rom = boot_rom_bytes

abbrev pub hex_of : Script → Result (List ℕ)
hex_of build_flash_canary = canary_hex
hex_of build_flash_pagetest = pagetest_hex
hex_of build_ps2_reader = ps2_reader_hex
hex_of build_ps2_ascii = ps2_ascii_hex
hex_of build_st7789_flash_image = st7789_hex
hex_of build_flash_handoff_stub = handoff_stub_hex
hex_of build_alu_test = alu_test_hex
hex_of build_boot_rom = boot_rom_hex

-- A script that does not raise, and whose image is made of bytes.
abbrev are_bytes : List ℕ → Bool
are_bytes [] = true
are_bytes (b ∷ bytes) = ltb b 256 && are_bytes bytes

abbrev gives_bytes : Result (List ℕ) → Bool
gives_bytes (err e) = false
gives_bytes (ok bytes) = are_bytes bytes

are_bytes-AllBelow : (bytes : List ℕ) → are_bytes bytes ≡ true → AllBelow 256 bytes
are_bytes-AllBelow [] h = tt
are_bytes-AllBelow (b ∷ bytes) h =
    let (small, below) = &&-both (ltb b 256) (are_bytes bytes) h in
    (ltb→lt b 256 small, are_bytes-AllBelow bytes below)

-- The image and the file of a script that does not raise, and that the file reads back as the image.
abbrev pub Written : Result (List ℕ) → Result (List ℕ) → Type 0
Written image file =
    (bytes : List ℕ) × (text : List ℕ) × (image ≡ ok bytes)
    × (file ≡ ok text)
    × (read_hex text ≡ some bytes)

gives_bytes-Written :
    (image : Result (List ℕ))
    → gives_bytes image ≡ true
    → Written image (image >>= λ bytes. ok (hex_file bytes))
gives_bytes-Written (err e) h = cc
gives_bytes-Written (ok bytes) h =
    (bytes, hex_file bytes, refl, refl, read_hex-hex_file bytes (are_bytes-AllBelow bytes h))

small_bytes :
    (gives_bytes canary ≡ true) × (gives_bytes pagetest ≡ true) × (gives_bytes handoff_stub ≡ true)
unfolding canary pagetest handoff_stub flatten
small_bytes = (refl, refl, refl)

ps2_bytes : (gives_bytes ps2_reader ≡ true) × (gives_bytes ps2_ascii ≡ true)
unfolding ps2_reader ps2_ascii flatten
ps2_bytes = (refl, refl)

st7789_bytes : gives_bytes st7789_sim ≡ true
unfolding st7789_sim flatten
st7789_bytes = refl

rom_bytes : (gives_bytes alu_test ≡ true) × (gives_bytes boot_rom_bytes ≡ true)
unfolding alu_test boot_rom_bytes
rom_bytes = (refl, refl)

-- Every one of the eight scripts returns, and the text of its .hex file reads back as its image: one byte
-- of the image for each line, in their order.
pub hex_of-Written : (s : Script) → Written (image_of s) (hex_of s)
hex_of-Written build_flash_canary = gives_bytes-Written canary small_bytes.0
hex_of-Written build_flash_pagetest = gives_bytes-Written pagetest small_bytes.1
hex_of-Written build_ps2_reader = gives_bytes-Written ps2_reader ps2_bytes.0
hex_of-Written build_ps2_ascii = gives_bytes-Written ps2_ascii ps2_bytes.1
hex_of-Written build_st7789_flash_image = gives_bytes-Written st7789_sim st7789_bytes
hex_of-Written build_flash_handoff_stub = gives_bytes-Written handoff_stub small_bytes.2
hex_of-Written build_alu_test = gives_bytes-Written alu_test rom_bytes.0
hex_of-Written build_boot_rom = gives_bytes-Written boot_rom_bytes rom_bytes.1
