-- ===== src/Asm/Bytes/Laws.antt =====
-- `words_to_bytes` of tools/asm_pineapple.py is inverted by reading four bytes, the lowest first.
use agil_a.Common.{
  ℕ, zero, suc, ◌+◌, ◌*◌, ◌/◌, ◌%◌, ◌^◌, ◌<◌, ◌≡◌, refl, ap₂, arith, List, [], ◌∷◌, ◌++◌, ok,
  length, lt→ltb, replicate,
}
use agil_a.Common.Bits.{bit_and_mask}
use agil_a.Asm.Bytes.{word_to_bytes, words_to_bytes}

abbrev pub AllBelow : ℕ → List ℕ → Type 0
AllBelow n [] = Unit
AllBelow n (x ∷ xs) = (x < n) × AllBelow n xs

-- The little-endian words of a byte string, a rest of fewer than four bytes dropped.
abbrev pub bytes_to_words : List ℕ → List ℕ
bytes_to_words (a ∷ b ∷ c ∷ d ∷ rest) =
    (a + b * 2 ^ 8 + c * 2 ^ 16 + d * 2 ^ 24) ∷ bytes_to_words rest
bytes_to_words rest = []

abbrev pub four_bytes : ℕ → List ℕ
four_bytes w = w % 256 ∷ (w / 2 ^ 8 % 256) ∷ (w / 2 ^ 16 % 256) ∷ (w / 2 ^ 24 % 256) ∷ []

pub word_to_bytes-lt : (w : ℕ) → w < 2 ^ 32 → word_to_bytes w ≡ ok (four_bytes w)
unfolding word_to_bytes
word_to_bytes-lt w h =
    rw
      (
        lt→ltb w (2 ^ 32) h,
        bit_and_mask 8 w,
        bit_and_mask 8 (w / 2 ^ 8),
        bit_and_mask 8 (w / 2 ^ 16),
        bit_and_mask 8 (w / 2 ^ 24),
      )
      refl

abbrev pub to_bytes : List ℕ → List ℕ
to_bytes [] = []
to_bytes (w ∷ ws) = four_bytes w ++ to_bytes ws

-- On words of 32 bits nothing raises.
pub words_to_bytes-lt : (ws : List ℕ) → AllBelow (2 ^ 32) ws → words_to_bytes ws ≡ ok (to_bytes ws)
unfolding words_to_bytes
words_to_bytes-lt [] h = refl
words_to_bytes-lt (w ∷ ws) (hw, h) = rw (word_to_bytes-lt w hw, words_to_bytes-lt ws h)

pub bytes_to_words-to_bytes :
    (ws : List ℕ) → AllBelow (2 ^ 32) ws → bytes_to_words (to_bytes ws) ≡ ws
bytes_to_words-to_bytes [] h = refl
bytes_to_words-to_bytes (w ∷ ws) (hw, h) = ap₂ ◌∷◌ (omega arith) (bytes_to_words-to_bytes ws h)

to_bytes-AllBelow : (ws : List ℕ) → AllBelow 256 (to_bytes ws)
to_bytes-AllBelow [] = tt
to_bytes-AllBelow (w ∷ ws) =
    (omega arith, (omega arith, (omega arith, (omega arith, to_bytes-AllBelow ws))))

pub length-to_bytes : (ws : List ℕ) → length (to_bytes ws) ≡ length ws * 4
length-to_bytes [] = refl
length-to_bytes (w ∷ ws) = omega (arith, length-to_bytes ws)

pub to_bytes-append : (xs ys : List ℕ) → to_bytes (xs ++ ys) ≡ to_bytes xs ++ to_bytes ys
to_bytes-append [] ys = refl
to_bytes-append (x ∷ xs) ys = rw (to_bytes-append xs ys)

pub AllBelow-append :
    (n : ℕ) (xs ys : List ℕ) → AllBelow n xs → AllBelow n ys → AllBelow n (xs ++ ys)
AllBelow-append n [] ys h k = k
AllBelow-append n (x ∷ xs) ys (hx, h) k = (hx, AllBelow-append n xs ys h k)

-- Words below 2 ** 32 become four bytes each, all below 256, and reading the bytes back four at a
-- time, the lowest first, gives the words.
pub words_to_bytes-bytes_to_words :
    (ws : List ℕ)
    → AllBelow (2 ^ 32) ws
    → (bs : List ℕ) × (words_to_bytes ws ≡ ok bs)
      × (bytes_to_words bs ≡ ws)
      × (length bs ≡ length ws * 4)
      × AllBelow 256 bs
words_to_bytes-bytes_to_words ws h = (
  to_bytes ws,
  words_to_bytes-lt ws h,
  bytes_to_words-to_bytes ws h,
  length-to_bytes ws,
  to_bytes-AllBelow ws,
)

pub replicate-AllBelow : (n k x : ℕ) → x < n → AllBelow n (replicate k x)
replicate-AllBelow n zero x h = tt
replicate-AllBelow n (suc k) x h = (h, replicate-AllBelow n k x h)
