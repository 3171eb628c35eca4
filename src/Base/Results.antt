-- ===== src/Base/Results.antt =====
-- Go's `(value, error)` pairs: a value or an error, and the chains of early returns.
use mathlib.Core.Path.{◌≡◌, refl}
use mathlib.Core.Logic.{◌⊎◌, inl, inr}
use mathlib.Core.Bool.{Bool, true, false}
use mathlib.Core.Option.{Option, none, some}

pub data Result {ℓ κ} (E : Type ℓ) (A : Type κ) : Type (ℓ ⊔ κ) where
  ok : A → Result E A
  err : E → Result E A

abbrev pub is_ok {ℓ κ} : {E : Type ℓ} {A : Type κ} → Result E A → Bool
is_ok (ok a) = true
is_ok (err e) = false

infixl 5 ◌>>=◌ ◌>>◌
-- The call behind a check of the error.
abbrev pub ◌>>=◌ {ℓ κ μ} :
    {E : Type ℓ} {X : Type κ} {Y : Type μ} → Result E X → (X → Result E Y) → Result E Y
err failure >>= next = err failure
ok value >>= next = next value

-- The call behind a check that gives no value.
abbrev pub ◌>>◌ {ℓ κ} : {E : Type ℓ} {Y : Type κ} → Result E (Unit {0}) → Result E Y → Result E Y
err failure >> next = err failure
ok unit >> next = next

-- `if !test { return e }`
abbrev pub require {ℓ} : {E : Type ℓ} → Bool → E → Result E (Unit {0})
require true e = ok tt
require false e = err e

abbrev pub or_fail {ℓ κ} : {E : Type ℓ} {A : Type κ} → Option A → E → Result E A
or_fail none e = err e
or_fail (some a) e = ok a

-- The state behind a call: a call that fails rolls its transaction back.
abbrev pub after {ℓ κ} : {E : Type ℓ} {S : Type κ} → S → Result E S → S
after s (ok t) = t
after s (err e) = s

pub Result-cases {ℓ κ} :
    {E : Type ℓ} {A : Type κ} (r : Result E A) → ((a : A) × (r ≡ ok a)) ⊎ ((e : E) × (r ≡ err e))
Result-cases (ok a) = inl (a, refl)
Result-cases (err e) = inr (e, refl)

-- A chain that succeeded went through its first call.
pub >>=-eq-ok {ℓ κ μ} :
    {E : Type ℓ} {X : Type κ} {Y : Type μ} (first : Result E X) (next : X → Result E Y) {out : Y}
    → first >>= next ≡ ok out
    → (value : X) × (first ≡ ok value) × (next value ≡ ok out)
>>=-eq-ok (err failure) next went = cc
>>=-eq-ok (ok value) next went = (value, refl, went)

pub ok-injective {ℓ κ} :
    {E : Type ℓ} {A : Type κ} (a b : A) → ◌≡◌ {A = Result E A} (ok a) (ok b) → a ≡ b
ok-injective a b e = cc

pub require-inv {ℓ κ} :
    {E : Type ℓ} {B : Type κ} (b : Bool) (e : E) (k : Result E B) {x : B}
    → require b e >> k ≡ ok x
    → (b ≡ true) × (k ≡ ok x)
require-inv true e k h = (refl, h)
require-inv false e k h = cc

pub or_fail-inv {ℓ κ μ} :
    {E : Type ℓ} {A : Type κ} {B : Type μ} (o : Option A) (e : E) (f : A → Result E B) {x : B}
    → or_fail o e >>= f ≡ ok x
    → (a : A) × (o ≡ some a) × (f a ≡ ok x)
or_fail-inv none e f h = cc
or_fail-inv (some a) e f h = (a, refl, h)
