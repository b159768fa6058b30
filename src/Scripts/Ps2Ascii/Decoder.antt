-- ===== src/Scripts/Ps2Ascii/Decoder.antt =====
-- The decoder of scan code set 2 that the docstring of tools/build_ps2_ascii.py describes: what one byte
-- of the keyboard does to the two pending flags, and the character that it gives, if any.
use agil_a.Common.{
  ℕ, suc, ◌<◌, ◌≡◌, refl, arith, Bool, true, false, Option, none, some, List, [], ◌∷◌, ◌==◌,
  if◌then◌else◌, ◌&&◌, ltb, ltb→lt,
}
use agil_a.Chip.Image.{&&-both}
use agil_a.Scripts.Ps2Ascii.{ascii_of, get_or_zero, scancode_to_ascii}

-- `broken`: the byte 0xF0 is pending; `extended`: the byte 0xE0 is.
pub record Keys : Type 0 where
  pub broken : Bool
  pub extended : Bool

abbrev pub no_keys : Keys
no_keys = record { broken = false; extended = false }

-- A byte with no break pending.
abbrev pub decode_no_break : Keys → ℕ → Keys × Option ℕ
decode_no_break k byte =
    if byte == 0xF0
    then (record k { broken = true }, none)
    else if byte == 0xE0
    then (record k { extended = true }, none)
    else if k.extended
    then (record k { extended = false }, none)
    else (k, some (ascii_of byte))

-- A byte: the one behind a break is dropped.
abbrev pub decode_byte : Keys → ℕ → Keys × Option ℕ
decode_byte k byte = if k.broken then (no_keys, none) else decode_no_break k byte

-- GPIO_OUT, and the values written to it with the last in front.
pub record Output : Type 0 where
  pub gpio : ℕ
  pub values : List ℕ

abbrev pub push : Option ℕ → Output → Output
push none out = out
push (some a) out = record { gpio = a; values = a ∷ out.values }

-- One byte after another.
abbrev pub decode_all : Keys → List ℕ → Output → Keys × Output
decode_all k [] out = (k, out)
decode_all k (byte ∷ bytes) out =
    decode_all (decode_byte k byte).0 bytes (push (decode_byte k byte).1 out)

-- The keys and the values of a table are below bounds.
abbrev are_below : ℕ → ℕ → List (ℕ × ℕ) → Bool
are_below n v [] = true
are_below n v ((key, value) ∷ table) = (ltb key n && ltb value v) && are_below n v table

get_or_zero-below :
    (n v key : ℕ) (table : List (ℕ × ℕ))
    → are_below n (suc v) table ≡ true
    → get_or_zero key table < suc v
unfolding get_or_zero
get_or_zero-below n v key [] h = omega arith
get_or_zero-below n v key ((k, value) ∷ table) h =
    let (this, later) = &&-both (ltb k n && ltb value (suc v)) (are_below n (suc v) table) h in
    let (_, small) = &&-both (ltb k n) (ltb value (suc v)) this in
    let rest = get_or_zero-below n v key table later in
    let fits = ltb→lt value (suc v) small in ground arith

get_or_zero-none :
    (n v key : ℕ) (table : List (ℕ × ℕ))
    → are_below n v table ≡ true
    → n < suc key
    → get_or_zero key table ≡ 0
unfolding get_or_zero
get_or_zero-none n v key [] h above = refl
get_or_zero-none n v key ((k, value) ∷ table) h above =
    let (this, later) = &&-both (ltb k n && ltb value v) (are_below n v table) h in
    let (small, _) = &&-both (ltb k n) (ltb value v) this in
    let rest = get_or_zero-none n v key table later above in
    let other = ltb→lt k n small in ground arith

-- A character has seven bits, and the scancodes without a page of their own have none.
pub ascii_of-below : (s : ℕ) → ascii_of s < 128
unfolding ascii_of
ascii_of-below s = get_or_zero-below 128 127 s scancode_to_ascii refl

pub ascii_of-none : (s : ℕ) → 226 < s → ascii_of s ≡ 0
unfolding ascii_of
ascii_of-none s above = get_or_zero-none 128 128 s scancode_to_ascii refl (omega arith)
