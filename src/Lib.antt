-- ===== src/Lib.antt =====
-- AgilA32: the assembler and the flash-image builders of the chip, against the core that runs what
-- they build.
--
-- The program's parts.
--   tools/asm_pineapple.py holds `Asm`, an assembler for the RV32I subset of the core: each method
--   appends a word, or a fixup that `finalize` resolves against the labels. `PagedAsm` cuts a
--   program into pages for the chip's 44-byte window: each page ends with a write of FLASH_PAGE and
--   a trampoline back to the start of the window. The scripts tools/build_*.py call these to make
--   the images that the chip boots, loads or fetches from flash. src/rv32i_core.v is the core that
--   executes the words: the meaning of an image is what that core does with it.
--
-- The files.
--   Common: Python's exceptions as a result type (Common.Errors), lists measured by the native
--     numbers (Common.Lists), Boolean tests (Common.Tests), Python's integers (Common.Int: `mask k v`
--     is `v & (2 ** k - 1)`), and the bit operators with the law that `|` of disjoint fields is a
--     sum (Common.Bits).
--   Asm.Encode: the encoders `_r`, `_i`, `_u`, the stores, and the two encodings in `finalize`
--     (branch_word, jal_word). `Instr` has one constructor for each method that emits a finished
--     word, and `word` gives that word. Asm.Encode.Fields writes each word as the sum of its fields,
--     Asm.Encode.Bounds bounds the ones that a page ends with.
--   Asm.State: the object `Asm` and its methods, as functions on a record; a call that raises gives
--     an error. The dictionary `labels` is an association list, and a word that `finalize` has yet to
--     fill in is `none`. Asm.Labels is about
--     the dictionary. Asm.Finalize: `finalize`. Asm.Finalize.Refines and Indices compare it with a one-pass
--     reading of the program, Asm.Finalize.Total shows when it returns. Asm.Bytes: `words_to_bytes`.
--   Core.Decode, Core.Alu, Core.Exec: src/rv32i_core.v, from a fetched word to the next fetch.
--     Core.Meaning: the specification, what the instruction of each method's name does.
--     Core.Encoded: the emitted words on the core, by format (Formats), for every finished word
--     (Instrs) and for the words that `finalize` fills in (Jumps).
--   Paged.State: the class `PagedAsm`. Paged.Layout, Paged.Pages and Paged.Switch: the words of a
--     finished page. Paged.Run: words on the core. Paged.Image: the
--     image of a whole script.
--   Core.Fsm: the same core clock edge by clock edge, with its reset, its wait states and a memory that
--     answers when it likes. Core.Fsm.Invariant says what each state holds of the instruction that it is
--     in; Refines, Rounds and Progress compare the clocks with the steps of Core.Exec.
--   Core.Runs: executions of some number of instructions. Core.Invariant: what an
--     execution keeps when each access of the bus keeps it.
--   Chip.Memory: src/mem.v behind the core's bus, one access at a time. What is wired to the chip (the
--     flash, the PSRAM chips, the pins) is a parameter: bytes for the flash, a pair of operations for
--     the PSRAM, and for each read of a register that the clock or a pin drives its value then.
--     Chip.Image: an image in flash. Chip.Run: instructions fetched from a page of it. Chip.Landing:
--     the end of a page, from the last of its code to the page that it chooses. Chip.Window: FLASH_MODE
--     and the RAM behind it under any execution.
--   Scripts: the eight tools/build_*.py, one file each, as programs for the assembler, and
--     properties of them. Scripts.Ps2Reader: the PS/2 receiver on the chip, from the levels of its pins
--     (Pins) and its two kinds of page (Poll, Sample) to a frame (Frame), the image (Receive) and a
--     stream of frames (Loop). Scripts.BootRom.Assembler is the script's own assembler; the others of
--     Scripts.BootRom are the boot ROM on the chip, from the wire (Wire) and its words in the ROM
--     (Steps, Rom) to a bit (Bit), a byte (Byte), a program (Load) and the boot (Boot); SelfTest and Demo
--     are the self-test and the wait for START, and Reset is the whole from address 0. Body is the text of
--     boot_rom_body.vh, Case (with Literals) the case statement of src/mem.v that includes it, and Files and
--     Pair compare it with boot_rom.hex, by words and by addresses.
--     Scripts.Ps2AsciiReceiver and Scripts.Ps2Ascii: tools/build_ps2_ascii.py, which has its own text of the
--     receiving pages. Scripts.Ps2Ascii.Decoder is the decoder of scan code set 2 that its docstring
--     describes; Pages has the words of the image, Process, Emit and Byte run the pages of one byte, Decodes
--     a stream of frames, and Strokes is about whole keystrokes. Standalone: boot ROM and this image with no
--     host.
--     Scripts.Ps2Reader.Booted: boot ROM, stub and PS/2 image one after the other.
--     Scripts.Handoff.Starts: the stub that turns FLASH_MODE on. Scripts.Canary.Spins and
--     Scripts.Pagetest.Shows: the stub with the canary, and with the page test.
--     Scripts.Hex and Scripts.HexFiles: the .hex files that the scripts write. Scripts.Examples compares two
--     images with the committed ones.
--   Examples, in each part: concrete programs and pages.
--
-- Conventions and bounds.
--   Registers and field widths are natural numbers. A Python integer that may be negative is ℤ, and
--   `_s12` reads it in two's complement as `&` does. A register or an immediate that its field
--   cannot hold spills into the next field, as in the source; the theorems about the core assume
--   operands that fit (IsEncodable). The core's pc has eight bits, so every address is read mod 256.
--   A step of the core stands for one round of its state machine, which Core.Fsm refines. The
--   memory bus of the core is a record of a read and a write on any state; chip_bus is the chip's.
--   The loop of `_pad_to` runs on fuel: a round adds four bytes, so that the target in bytes is enough.
--   The reader of case arms (Scripts.BootRom.Case) runs on the length of the text, and an arm is no shorter
--   than one character.
--   An execution (Runs) is a finite list of steps; the loops that poll a pin end by an induction on what
--   the pin does, poll by poll (Edge, High, Low), and take no fuel.
--   1023 words is a bound that keeps every offset in the range of a branch.
--   A page's window is below 1048576 bytes, the reach of a JAL, and a multiple of 4.
--
-- Not modelled: the clock cycles of src/mem.v and of the QSPI engine and their `ready`, the
-- counters of the timer and the PWM, and the pins, which are Verilog at the level of clock edges
-- (Core.Fsm takes a memory that completes an access at the edge with mem_valid and mem_ready);
-- what each script prints, and the .bin files (the bytes as they are); test/test.py and the test
-- benches. The index that `Asm.emit` returns has no reader.
pub mod Common
pub mod Asm
pub mod Core
pub mod Paged
pub mod Chip
pub mod Scripts
