-- ===== src/Asm/Bytes.antt =====
-- tools/asm_pineapple.py: `words_to_bytes`.
pub mod Laws
use agil_a.Common.{
  ℕ, ◌^◌, List, [], ◌∷◌, ◌++◌, Result, ok, err, overflow_error, ◌>>=◌, ltb, if◌then◌else◌,
}
use agil_a.Common.Bits.{◌>>>◌, ◌&&&◌}

-- `w.to_bytes(4, 'little')`, which raises OverflowError from 2 ** 32.
unfoldable pub word_to_bytes : ℕ → Result (List ℕ)
word_to_bytes w =
    if ltb w (2 ^ 32)
    then ok ((w &&& 0xFF) ∷ (w >>> 8 &&& 0xFF) ∷ (w >>> 16 &&& 0xFF) ∷ (w >>> 24 &&& 0xFF) ∷ [])
    else err overflow_error

unfoldable pub words_to_bytes : List ℕ → Result (List ℕ)
unfolding word_to_bytes
words_to_bytes [] = ok []
words_to_bytes (w ∷ ws) = word_to_bytes w >>= λ out. words_to_bytes ws >>= λ rest. ok (out ++ rest)
