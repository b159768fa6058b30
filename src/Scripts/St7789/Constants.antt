-- ===== src/Scripts/St7789/Constants.antt =====
-- `load_const32` of tools/build_st7789_flash_image.py, on the core of src/rv32i_core.v.
use agil_a.Common.{
  ℕ, ◌+◌, ◌-◌, ◌*◌, ◌/◌, ◌%◌, ◌^◌, ◌<◌, ◌≡◌, refl, sym, ap, ◌∙◌, arith, true, false, Bool-cases,
  inl, inr, List, [], ◌∷◌, ok, bit_and, ltb, lt→ltb, ◌==◌, ==_iff, if◌then◌else◌,
}
use agil_a.Common.Int.{pos, mask}
use agil_a.Common.Bits.{bit_and_mask}
use agil_a.Asm.Encode.{word, addi, slli, add}
use agil_a.Core.Decode.{sign_extend}
use agil_a.Core.Alu.{alu, alu_op}
use agil_a.Core.Exec.{Core, Bus, reg, set_reg, exec}
use agil_a.Core.Meaning.{perform, put}
use agil_a.Core.Encoded.Formats.{exec_imm}
use agil_a.Core.Encoded.Instrs.{exec-word}
use agil_a.Paged.State.{PagedAsm}
use agil_a.Paged.Layout.{with_cur, emit_all}
use agil_a.Paged.Run.{exec_all, reg-put}
use agil_a.Scripts.St7789.{load_const32}

-- What `ADDI rd, x0, n` leaves for `n` of twelve bits.
abbrev pub low_value : ℕ → ℕ
low_value n = sign_extend 12 n

-- The words that `load_const32` emits.
abbrev const_words : ℕ → ℕ → ℕ → List ℕ
const_words rd value scratch =
    word (addi rd 0 (pos (value % 4096)))
    ∷ (if value / 4096 == 0
        then []
        else word (addi scratch 0 (pos (value / 4096)))
          ∷ word (slli scratch scratch (pos 12))
          ∷ word (add rd rd scratch)
          ∷ [])

low_bits : (value : ℕ) → bit_and value 0xFFF ≡ value % 4096
low_bits value = bit_and_mask 12 value

load_const32-words :
    (rd value scratch : ℕ) (p : PagedAsm)
    → value < 2 ^ 24
    → load_const32 rd value scratch p
      ≡ ok (with_cur p (emit_all (const_words rd value scratch) p.cur))
unfolding load_const32
load_const32-words rd value scratch p small =
    let fits : ltb value (2 ^ 24) ≡ true = lt→ltb value (2 ^ 24) small in
    elim (Bool-cases (value / 4096 == 0)) [
      | inl none_left ↦ rw (fits, low_bits value, none_left)
      | inr some_left ↦ rw (fits, low_bits value, some_left)
    ]

-- Another register keeps its value.
reg-put_other : (c : Core) (rd r v : ℕ) → (rd ≡ r → ⊥) → reg (put c rd v) r ≡ reg c r
unfolding reg set_reg
reg-put_other c rd r v h = ground arith

-- What `load_const32` leaves in rd.
abbrev pub loaded : ℕ → ℕ
loaded value = if ltb (value % 4096) 2048 then value else (value + 2 ^ 32 - 4096) % 2 ^ 32

loaded_low : (value : ℕ) → value / 4096 ≡ 0 → low_value (value % 4096) ≡ loaded value
loaded_low value h = ground arith

loaded_high :
    (value : ℕ)
    → value < 2 ^ 24
    → value / 4096 < 2048
    → (low_value (value % 4096) + low_value (value / 4096) * 4096 % 2 ^ 32) % 2 ^ 32 ≡ loaded value
loaded_high value small high = ground arith

module _ {M : Type 0} (bus : Bus M) where
  abbrev Loads : ℕ → ℕ → Core → M → List ℕ → Type 0
  Loads rd value c m ws =
      let (c', m') = exec_all bus ws c m in (reg c' rd ≡ loaded value) × (m' ≡ m)

  exec-addi_low :
      (rd n : ℕ) (c : Core) (m : M)
      → rd < 32
      → n < 4096
      → exec bus (word (addi rd 0 (pos n))) c m ≡ (put c rd (low_value n), m)
  unfolding word alu alu_op reg
  exec-addi_low rd n c m hd h =
      let e : mask 12 (pos n) ≡ n = unfold mask in omega arith in
      let low : (0 + low_value n) % 2 ^ 32 ≡ low_value n = ground arith in
      rw (exec_imm bus c m (pos n) 0 0 rd (omega arith) (omega arith) hd, e)
        (ap (λ (v : ℕ). (put c rd v, m)) low)

  -- The last two words: the high half moves up, and is added.
  exec_all-shift_add :
      (rd scratch low high : ℕ) (c : Core) (m : M)
      → 0 < rd
      → rd < 32
      → 0 < scratch
      → scratch < 32
      → ¬ (rd ≡ scratch)
      → reg c rd ≡ low
      → reg c scratch ≡ high
      → let (c', m') =
          exec_all bus (word (slli scratch scratch (pos 12)) ∷ word (add rd rd scratch) ∷ []) c m in
        (reg c' rd ≡ (low + high * 4096 % 2 ^ 32) % 2 ^ 32) × (m' ≡ m)
  unfolding perform mask
  exec_all-shift_add rd scratch low high c m hr rn hs sn apart is_low is_high =
      let c₁ = put c scratch (high * 4096 % 2 ^ 32) in
      let shifted : exec bus (word (slli scratch scratch (pos 12))) c m ≡ (c₁, m) =
        rw (exec-word bus (slli scratch scratch (pos 12)) c m (sn, sn), is_high) in
      let added : exec bus (word (add rd rd scratch)) c₁ m
          ≡ (put c₁ rd ((reg c₁ rd + reg c₁ scratch) % 2 ^ 32), m) =
        exec-word bus (add rd rd scratch) c₁ m (rn, rn, sn) in
      rw (shifted, added)
        (
          reg-put c₁ rd ((reg c₁ rd + reg c₁ scratch) % 2 ^ 32) hr
              ∙ rw
                  (
                    reg-put c scratch (high * 4096 % 2 ^ 32) hs,
                    reg-put_other c scratch rd (high * 4096 % 2 ^ 32) (λ e. apart (sym e)),
                    is_low,
                  )
                  refl,
          refl,
        )

  -- The words of a constant whose high half is 0, and of another.
  run_low :
      (rd value scratch : ℕ) (c : Core) (m : M)
      → 0 < rd
      → rd < 32
      → (value / 4096 == 0) ≡ true
      → Loads rd value c m (const_words rd value scratch)
  run_low rd value scratch c m hr rn none_left =
      let first = exec-addi_low rd (value % 4096) c m rn (omega arith) in
      rw (none_left, first)
        (
          reg-put c rd (low_value (value % 4096)) hr
              ∙ loaded_low value ((==_iff (value / 4096) 0).0 none_left),
          refl,
        )

  run_high :
      (rd value scratch : ℕ) (c : Core) (m : M)
      → value < 2 ^ 24
      → value / 4096 < 2048
      → 0 < rd
      → rd < 32
      → 0 < scratch
      → scratch < 32
      → ¬ (rd ≡ scratch)
      → (value / 4096 == 0) ≡ false
      → Loads rd value c m (const_words rd value scratch)
  run_high rd value scratch c m small high hr rn hs sn apart some_left =
      let low = low_value (value % 4096) in
      let c₁ = put c rd low in
      let first = exec-addi_low rd (value % 4096) c m rn (omega arith) in
      let second = exec-addi_low scratch (value / 4096) c₁ m sn (omega arith) in
      let c₂ = put c₁ scratch (low_value (value / 4096)) in
      let (sum, kept) =
        exec_all-shift_add rd scratch low (low_value (value / 4096)) c₂ m hr rn hs sn apart
          (reg-put_other c₁ scratch rd (low_value (value / 4096)) (λ e. apart (sym e))
            ∙ reg-put c rd low hr)
          (reg-put c₁ scratch (low_value (value / 4096)) hs) in
      rw (some_left, first, second) (sum ∙ loaded_high value small high, kept)

-- `load_const32` of a value below 2 ** 24, emitted into any page and run on the core, leaves the
-- value in rd if bit 11 of the value is clear, and a value that is 4096 too small (mod 2 ** 32) if it
-- is set. Memory is not touched. rd and the scratch register are two of x1 to x31, and the part of
-- the value above its low twelve bits is below 0x800.
pub load_const32-loads :
    {M : Type 0} (bus : Bus M) (c : Core) (m : M) (p : PagedAsm) (rd value scratch : ℕ)
    → value < 2 ^ 24
    → value / 4096 < 2048
    → 0 < rd
    → rd < 32
    → 0 < scratch
    → scratch < 32
    → ¬ (rd ≡ scratch)
    → (ws : List ℕ) × (load_const32 rd value scratch p ≡ ok (with_cur p (emit_all ws p.cur)))
      × (reg (exec_all bus ws c m).0 rd
          ≡ (if ltb (value % 4096) 2048 then value else (value + 2 ^ 32 - 4096) % 2 ^ 32))
      × ((exec_all bus ws c m).1 ≡ m)
load_const32-loads bus c m p rd value scratch small high hr rn hs sn apart =
    let (is, kept) =
      elim (Bool-cases (value / 4096 == 0))
        as (λ x. Loads bus rd value c m (const_words rd value scratch)) [
          | inl none_left ↦ run_low bus rd value scratch c m hr rn none_left
          | inr some_left ↦ run_high bus rd value scratch c m small high hr rn hs sn apart some_left
        ] in
    (const_words rd value scratch, load_const32-words rd value scratch p small, is, kept)
