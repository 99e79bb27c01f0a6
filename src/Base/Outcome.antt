-- ===== src/Base/Outcome.antt =====
-- What a C function that may stop does: it returns, it runs into `TRAP()` (a failed `ASSERT` or an
-- explicit trap), it touches memory that is not its own, or it throws an exception of the language.
use mathlib.Core.Path.{◌≡◌}
use mathlib.Core.Bool.{Bool, true, false}

pub data Result {ℓ} (A : Type ℓ) : Type ℓ where
  ok : A → Result A
  trap : Result A
  fault : Result A
  thrown : Result A

infixl 5 ◌>>=◌ ◌>>◌
abbrev pub ◌>>=◌ {ℓ κ} : {A : Type ℓ} {B : Type κ} → Result A → (A → Result B) → Result B
ok a >>= f = f a
trap >>= f = trap
fault >>= f = fault
thrown >>= f = thrown

abbrev pub ◌>>◌ {ℓ} : {B : Type ℓ} → Result (Unit {0}) → Result B → Result B
m >> k = m >>= λ _. k

-- `ASSERT(b)`
abbrev pub assert : Bool → Result (Unit {0})
assert true = ok tt
assert false = trap

pub assert-true : {b : Bool} → b ≡ true → assert b ≡ ok tt
assert-true e = rw e

-- A result that is returned and has a property: no trap, no fault, nothing thrown.
pub data Returns {ℓ κ} {A : Type ℓ} (P : A → Type κ) : Result A → Type (ℓ ⊔ κ) where
  returns : {a : A} → P a → Returns P (ok a)

pub Returns-mono {ℓ κ ι} :
    {A : Type ℓ} {P : A → Type κ} {Q : A → Type ι} {r : Result A}
    → Returns P r
    → ((a : A) → P a → Q a)
    → Returns Q r
Returns-mono (returns p) f = returns (f _ p)

pub Returns-bind {ℓ κ ι μ} :
    {A : Type ℓ} {B : Type ι} {P : A → Type κ} {Q : B → Type μ} {r : Result A} {k : A → Result B}
    → Returns P r
    → ((a : A) → P a → Returns Q (k a))
    → Returns Q (r >>= k)
Returns-bind (returns p) f = f _ p

-- What holds of a result that is returned holds of its value.
pub Returns-ok {ℓ κ} : {A : Type ℓ} {P : A → Type κ} {a : A} → Returns P (ok a) → P a
Returns-ok (returns p) = p
