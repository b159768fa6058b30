-- ===== src/Common/Errors.antt =====
-- Python's exceptions as values: a step either returns or raises one of these.
use mathlib.Core.Path.{◌≡◌, refl, subst}
use mathlib.Core.Bool.{Bool, true, false}
use Prim.Native.String.{String}

pub data Error : Type 0 where
  assertion_error index_error overflow_error : Error
  key_error value_error : String → Error

-- `err` is what a step raised, `ok` what it returned.
pub data Result {ℓ} (V : Type ℓ) : Type ℓ where
  err : Error → Result V
  ok : V → Result V

module _ {ℓ κ} {V : Type ℓ} {W : Type κ} where
  -- A raised error skips the statements that follow.
  infixl 5 ◌>>=◌
  abbrev pub ◌>>=◌ : Result V → (V → Result W) → Result W
  err raised >>= next = err raised
  ok value >>= next = next value

  -- Inversion of a step that returned.
  pub >>=-eq-ok :
      (step : Result V) (next : V → Result W) {w : W}
      → (step >>= next) ≡ ok w
      → (v : V) × (step ≡ ok v) × (next v ≡ ok w)
  >>=-eq-ok (err raised) next returned = cc
  >>=-eq-ok (ok value) next returned = (value, refl, returned)

  pub bind_congr :
      (step : Result V) {next next' : V → Result W}
      → ((v : V) → next v ≡ next' v)
      → (step >>= next) ≡ (step >>= next')
  bind_congr (err raised) same = refl
  bind_congr (ok value) same = same value

infixl 5 ◌>>◌
abbrev pub ◌>>◌ {κ} : {W : Type κ} → Result (Unit {0}) → Result W → Result W
first >> second = first >>= λ u. second

module _ {ℓ κ μ} {V : Type ℓ} {W : Type κ} {X : Type μ} where
  -- One statement after another, each a step on the object that the script builds.
  infixl 5 ◌>=>◌
  abbrev pub ◌>=>◌ : (V → Result W) → (W → Result X) → V → Result X
  (first >=> second) v = first v >>= second

  pub bind_assoc :
      (step : Result V) (f : V → Result W) (g : W → Result X)
      → (step >>= f >>= g) ≡ (step >>= λ v. f v >>= g)
  bind_assoc (err raised) f g = refl
  bind_assoc (ok value) f g = refl

-- `assert test`
abbrev pub assert : Bool → Result (Unit {0})
assert true = ok tt
assert false = err assertion_error

pub bind-ok {ℓ} : {V : Type ℓ} (step : Result V) → (step >>= ok) ≡ step
bind-ok (err raised) = refl
bind-ok (ok value) = refl

-- What holds of the value that a step returns, under the name that the equation gives it.
pub of_ok {ℓ κ} : {V : Type ℓ} {v w : V} (P : V → Type κ) → ok v ≡ ok w → P v → P w
of_ok P e h = subst P (cc) h
