-- ===== src/Asm/Labels.antt =====
-- `Asm.label` of tools/asm_pineapple.py: the dictionary of labels.
use text.Mathlib.TextEquality.{eq_iff}
use text.Mathlib.Text.{◌==◌ as str_eq}
use agil_a.Common.{
  ℕ, ◌≡◌, refl, sym, ap, List, ◌∷◌, Bool, true, false, none, some, String, ok, Bool-cases, inl, inr,
}
use agil_a.Asm.State.{Asm, addr, label, is_fresh, find_label}

other_key : (name other : String) → ¬ (other ≡ name) → str_eq name other ≡ false
other_key name other differs = elim (Bool-cases (str_eq name other)) [
  | inl same ↦ absurd (differs (sym ((eq_iff name other).0 same)))
  | inr apart ↦ apart
]

is_fresh-none :
    (name : String) (labels : List (String × ℕ))
    → find_label name labels ≡ none
    → is_fresh name labels ≡ true
unfolding is_fresh
is_fresh-none name labels h =
    ap (λ found. elim found as (λ x. Bool) [ none ↦ true | some at ↦ false ]) h

-- A name that is not in the dictionary: `label` sets it to the address of the next word, and no other
-- name changes.
pub find_label-label :
    (name other : String) (a : Asm)
    → find_label name a.labels ≡ none
    → ¬ (other ≡ name)
    → (b : Asm) × (label name a ≡ ok b)
      × (find_label name b.labels ≡ some (addr a))
      × (find_label other b.labels ≡ find_label other a.labels)
      × (addr b ≡ addr a)
unfolding label addr find_label
find_label-label name other a fresh differs =
    let same : str_eq name name ≡ true = (eq_iff name name).1 refl in
    let apart = other_key name other differs in
    (
      record a { labels = (name, addr a) ∷ a.labels },
      rw (is_fresh-none name a.labels fresh),
      rw same,
      rw apart,
      refl,
    )
