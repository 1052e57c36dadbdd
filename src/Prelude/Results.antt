-- ===== src/Prelude/Results.antt =====
-- What a Go function that returns an error can do: return a value, return an error, or panic.
use mathlib.Core.Path.{◌≡◌, refl}
use mathlib.Core.Bool.{Bool, true, false}

pub data Result {ℓ κ} (E : Type κ) (A : Type ℓ) : Type (ℓ ⊔ κ) where
  panic : Result E A
  err : E → Result E A
  ok : A → Result E A

-- `if !test { return e }`
abbrev pub ensure {κ} : {E : Type κ} → (test : Bool) → E → Result E (Unit {0})
ensure false e = err e
ensure true e = ok tt

infixl 5 ◌>>=◌
abbrev pub ◌>>=◌ {ℓ κ μ} :
    {E : Type κ} {A : Type ℓ} {B : Type μ} (r : Result E A) → (then : A → Result E B) → Result E B
panic >>= then = panic
err e >>= then = err e
ok value >>= then = then value

infixl 5 ◌>>◌
abbrev pub ◌>>◌ {ℓ κ} :
    {E : Type κ} {B : Type ℓ} (r : Result E (Unit {0})) → (next : Result E B) → Result E B
r >> next = r >>= λ done. next

-- A step that was taken: its value, and how the rest went on from it.
pub >>=-eq-ok {ℓ κ μ} :
    {E : Type κ} {A : Type ℓ} {B : Type μ} (step : Result E A) (rest : A → Result E B) {result : B}
    → (step >>= rest) ≡ ok result
    → (value : A) × (step ≡ ok value) × (rest value ≡ ok result)
>>=-eq-ok panic rest through = cc
>>=-eq-ok (err e) rest through = cc
>>=-eq-ok (ok value) rest through = (value, refl, through)

-- Inversion of a check that was passed.
pub ensure-eq-ok {ℓ κ} :
    {E : Type κ} {B : Type ℓ} (b : Bool) (e : E) (k : Result E B) {c : B}
    → (ensure b e >> k) ≡ ok c
    → (b ≡ true) × (k ≡ ok c)
ensure-eq-ok true e k h = (refl, h)
ensure-eq-ok false e k h = cc

pub ok-injective {ℓ κ} :
    (E : Type κ) → {A : Type ℓ} {a b : A} → Path (Result E A) (ok a) (ok b) → a ≡ b
ok-injective E h = cc
