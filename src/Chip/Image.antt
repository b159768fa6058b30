-- ===== src/Chip/Image.antt =====
-- A flash image, as `PagedAsm.finalize` of tools/asm_pineapple.py gives it, in the flash chip: page
-- `k` stands at byte `k * 44`.
use mathlib.Core.List.{flatten}
use agil_a.Common.{
  ℕ, zero, suc, ◌+◌, ◌*◌, ◌/◌, ◌%◌, ◌^◌, ◌<◌, ◌≡◌, refl, ap, subst, ◌∙◌, arith, Bool, true, false,
  ◌&&◌, Option, some, none, List, [], ◌∷◌, ◌++◌, map, length, get_elem?, ltb, ltb→lt, ◌==◌, ==_iff,
}
use agil_a.Asm.Bytes.Laws.{to_bytes, four_bytes, length-to_bytes}
use agil_a.Paged.Layout.{trampoline}
use agil_a.Chip.Memory.{Board, word_at}
use agil_a.Chip.Run.{HasWords}

-- A memory holds these bytes from `at` on.
abbrev pub HasBytes : (ℕ → ℕ) → ℕ → List ℕ → Type 0
HasBytes bytes at [] = Unit
HasBytes bytes at (b ∷ bs) = (bytes at ≡ b) × HasBytes bytes (suc at) bs

-- The flash holds these pages from page `k` on.
abbrev pub HasPages : Board → ℕ → List (List ℕ) → Type 0
HasPages board k [] = Unit
HasPages board k (ws ∷ pages) = HasWords board k 0 ws × HasPages board (suc k) pages

-- A page has eleven words of 32 bits, the last of them the trampoline.
abbrev pub below_word : List ℕ → Bool
below_word [] = true
below_word (w ∷ ws) = ltb w (2 ^ 32) && below_word ws

abbrev is_trampoline : Option ℕ → Bool
is_trampoline none = false
is_trampoline (some w) = w == trampoline 44

abbrev pub are_pages : List (List ℕ) → Bool
are_pages [] = true
are_pages (ws ∷ pages) =
    ((length ws == 11) && (below_word ws && is_trampoline (get_elem? ws 10))) && are_pages pages

pub &&-both : (a b : Bool) → (a && b) ≡ true → (a ≡ true) × (b ≡ true)
&&-both true b h = (refl, h)
&&-both false b h = cc

is_trampoline-some : (o : Option ℕ) → is_trampoline o ≡ true → o ≡ some (trampoline 44)
is_trampoline-some none h = cc
is_trampoline-some (some w) h = ap some ((==_iff w (trampoline 44)).0 h)

module _ (board : Board) where
  pub HasBytes-append :
      (at : ℕ) (xs ys : List ℕ)
      → HasBytes board.flash at (xs ++ ys)
      → HasBytes board.flash at xs × HasBytes board.flash (at + length xs) ys
  HasBytes-append at [] ys h = (tt, subst (λ n. HasBytes board.flash n ys) (omega arith) h)
  HasBytes-append at (x ∷ xs) ys (e, h) =
      let (first, rest) = HasBytes-append (suc at) xs ys h in
      ((e, first), subst (λ n. HasBytes board.flash n ys) (omega arith) rest)

  word_at-four_bytes :
      (at w : ℕ) → w < 2 ^ 32 → HasBytes board.flash at (four_bytes w) → word_at board.flash at ≡ w
  word_at-four_bytes at w h (e₀, (e₁, (e₂, (e₃, _)))) =
      let f₁ = ap board.flash (omega arith) ∙ e₁ in
      let one : board.flash (at + 1) ≡ w / 2 ^ 8 % 256 = f₁ in
      let f₂ = ap board.flash (omega arith) ∙ e₂ in
      let two : board.flash (at + 2) ≡ w / 2 ^ 16 % 256 = f₂ in
      let f₃ = ap board.flash (omega arith) ∙ e₃ in
      let three : board.flash (at + 3) ≡ w / 2 ^ 24 % 256 = f₃ in omega (arith, e₀, one, two, three)

  pub HasWords-bytes :
      (k i : ℕ) (ws : List ℕ)
      → below_word ws ≡ true
      → HasBytes board.flash (k * 44 + i * 4) (to_bytes ws)
      → HasWords board k i ws
  HasWords-bytes k i [] ok h = tt
  HasWords-bytes k i (w ∷ ws) ok h =
      let (small, later) = &&-both (ltb w (2 ^ 32)) (below_word ws) ok in
      let (first, rest) = HasBytes-append (k * 44 + i * 4) (four_bytes w) (to_bytes ws) h in
      (
        word_at-four_bytes (k * 44 + i * 4) w (ltb→lt w (2 ^ 32) small) first,
        HasWords-bytes k (suc i) ws later
            (subst (λ n. HasBytes board.flash n (to_bytes ws)) (omega arith) rest),
      )

  -- The bytes of pages are the pages.
  pub HasPages-bytes :
      (k : ℕ) (pages : List (List ℕ))
      → are_pages pages ≡ true
      → HasBytes board.flash (k * 44) (flatten (map to_bytes pages))
      → HasPages board k pages
  unfolding flatten
  HasPages-bytes k [] ok h = tt
  HasPages-bytes k (ws ∷ pages) ok h =
      let (this, later) =
        &&-both ((length ws == 11) && (below_word ws && is_trampoline (get_elem? ws 10)))
          (are_pages pages) ok in
      let (eleven, rest) =
        &&-both (length ws == 11) (below_word ws && is_trampoline (get_elem? ws 10)) this in
      let (below, _) = &&-both (below_word ws) (is_trampoline (get_elem? ws 10)) rest in
      let (first, others) =
        HasBytes-append (k * 44) (to_bytes ws) (flatten (map to_bytes pages)) h in
      (
        HasWords-bytes k 0 ws below
            (subst (λ n. HasBytes board.flash n (to_bytes ws)) (omega arith) first),
        HasPages-bytes (suc k) pages later (
            subst (λ n. HasBytes board.flash n (flatten (map to_bytes pages)))
              (omega (arith, length-to_bytes ws, (==_iff (length ws) 11).0 eleven)) others),
      )

  HasWords-get :
      (k i j w : ℕ) (ws : List ℕ)
      → HasWords board k i ws
      → get_elem? ws j ≡ some w
      → word_at board.flash (k * 44 + (i + j) * 4) ≡ w
  HasWords-get k i j w [] h e = cc
  HasWords-get k i zero w (v ∷ ws) (holds, h) e =
      let here : k * 44 + (i + 0) * 4 ≡ k * 44 + i * 4 = omega arith in
      ap (word_at board.flash) here ∙ holds ∙ cc
  HasWords-get k i (suc j) w (v ∷ ws) (holds, h) e =
      let here : k * 44 + (i + suc j) * 4 ≡ k * 44 + (suc i + j) * 4 = omega arith in
      ap (word_at board.flash) here ∙ HasWords-get k (suc i) j w ws h e

  -- Every page of the image ends with the trampoline.
  pub bounces :
      (k n : ℕ) (pages : List (List ℕ))
      → are_pages pages ≡ true
      → HasPages board k pages
      → n < length pages
      → word_at board.flash ((k + n) * 44 + 40) ≡ trampoline 44
  bounces k n [] ok h lt = absurd (omega arith)
  bounces k zero (ws ∷ pages) ok (this, h) lt =
      let (fine, later) =
        &&-both ((length ws == 11) && (below_word ws && is_trampoline (get_elem? ws 10)))
          (are_pages pages) ok in
      let (eleven, rest) =
        &&-both (length ws == 11) (below_word ws && is_trampoline (get_elem? ws 10)) fine in
      let (below, last) = &&-both (below_word ws) (is_trampoline (get_elem? ws 10)) rest in
      let here : (k + 0) * 44 + 40 ≡ k * 44 + (0 + 10) * 4 = omega arith in
      ap (word_at board.flash) here
      ∙ HasWords-get k 0 10 (trampoline 44) ws this (is_trampoline-some (get_elem? ws 10) last)
  bounces k (suc n) (ws ∷ pages) ok (this, h) lt =
      let (fine, later) =
        &&-both ((length ws == 11) && (below_word ws && is_trampoline (get_elem? ws 10)))
          (are_pages pages) ok in
      let here : (k + suc n) * 44 + 40 ≡ (suc k + n) * 44 + 40 = omega arith in
      ap (word_at board.flash) here ∙ bounces (suc k) n pages later h (omega arith)
