-- ===== src/Base/Fallible.antt =====
-- `Result` of the standard library, with `?` as bind.
use mathlib.Core.Logic.{◌⊎◌, inl, inr}
use mathlib.Core.Path.{◌≡◌, refl}
use native.Mathlib.Omega.{arith}

pub data Result {ℓ} (A E : Type ℓ) : Type ℓ where
  ok : A → Result A E
  err : E → Result A E

infixl 5 ◌>>=◌
abbrev pub ◌>>=◌ {ℓ} : {A B E : Type ℓ} → Result A E → (A → Result B E) → Result B E
err e >>= next = err e
ok x >>= next = next x

-- A chain that succeeds has succeeded at its first link.
pub >>=-eq-ok {ℓ} :
    {A B E : Type ℓ} (r : Result A E) (next : A → Result B E) {y : B}
    → r >>= next ≡ ok y
    → (x : A) × (r ≡ ok x) × (next x ≡ ok y)
>>=-eq-ok (err e) next h = ground arith
>>=-eq-ok (ok x) next h = (x, refl, h)

pub Result-cases {ℓ} :
    {A E : Type ℓ} (r : Result A E) → ((a : A) × (r ≡ ok a)) ⊎ ((e : E) × (r ≡ err e))
Result-cases (ok a) = inl (a, refl)
Result-cases (err e) = inr (e, refl)
