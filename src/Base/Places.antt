-- ===== src/Base/Places.antt =====
-- Where a value stands in a list, and in an updated or an extended one.
use tcpunch.Base.Lists.{get_elem?, set}
use tcpunch.Base.Tests.{none-ne-some}
use mathlib.Core.Logic.{◌⊎◌, ◌≢◌, inl, inr}
use Prim.Native.Nat.{ℕ, zero, suc}
use mathlib.Core.Path.{◌≡◌, refl, ap}
use mathlib.Core.List.{List, [], ◌∷◌, ◌++◌}
use mathlib.Core.Option.{some, some-injective}
use native.Mathlib.Omega.{arith}

-- A value stands somewhere in a list.
abbrev pub Occurs : {A : Type 0} → A → List A → Type 0
Occurs x [] = ⊥
Occurs x (y ∷ ys) = (y ≡ x) ⊎ Occurs x ys

pub Occurs-append_right : {A : Type 0} (x : A) (xs ys : List A) → Occurs x ys → Occurs x (xs ++ ys)
Occurs-append_right x [] ys h = h
Occurs-append_right x (y ∷ xs) ys h = inr (Occurs-append_right x xs ys h)

module _ {ℓ} {A : Type ℓ} where
  -- Where an entry of an updated list comes from.
  pub get_elem?-set_cases :
      (xs : List A) (i j : ℕ) (v w : A)
      → get_elem? (set xs i v) j ≡ some w
      → ((i ≡ j) × (v ≡ w)) ⊎ ((i ≢ j) × (get_elem? xs j ≡ some w))
  get_elem?-set_cases [] i j v w h = absurd (none-ne-some h)
  get_elem?-set_cases (x ∷ xs) zero zero v w h = inl (refl, some-injective v w h)
  get_elem?-set_cases (x ∷ xs) zero (suc j) v w h = inr (λ e. omega (arith, e), h)
  get_elem?-set_cases (x ∷ xs) (suc i) zero v w h = inr (λ e. omega (arith, e), h)
  get_elem?-set_cases (x ∷ xs) (suc i) (suc j) v w h = elim (get_elem?-set_cases xs i j v w h) [
    | inl (e, q) ↦ inl (ap suc e, q)
    | inr (ne, h') ↦ inr (λ e. ne (omega (arith, e)), h')
  ]

  pub get_elem?-set_ne :
      (xs : List A) (i j : ℕ) (v : A) → i ≢ j → get_elem? (set xs i v) j ≡ get_elem? xs j
  get_elem?-set_ne [] i j v h = refl
  get_elem?-set_ne (x ∷ xs) zero zero v h = absurd (h refl)
  get_elem?-set_ne (x ∷ xs) zero (suc j) v h = refl
  get_elem?-set_ne (x ∷ xs) (suc i) zero v h = refl
  get_elem?-set_ne (x ∷ xs) (suc i) (suc j) v h = get_elem?-set_ne xs i j v (λ e. h (ap suc e))

  pub get_elem?-set_self :
      (xs : List A) (i : ℕ) (v : A) {old : A}
      → get_elem? xs i ≡ some old
      → get_elem? (set xs i v) i ≡ some v
  get_elem?-set_self [] i v h = absurd (none-ne-some h)
  get_elem?-set_self (x ∷ xs) zero v h = refl
  get_elem?-set_self (x ∷ xs) (suc i) v h = get_elem?-set_self xs i v h

  pub get_elem?-append_left :
      (xs ys : List A) (i : ℕ) {x : A} → get_elem? xs i ≡ some x → get_elem? (xs ++ ys) i ≡ some x
  get_elem?-append_left [] ys i h = absurd (none-ne-some h)
  get_elem?-append_left (y ∷ xs) ys zero h = h
  get_elem?-append_left (y ∷ xs) ys (suc i) h = get_elem?-append_left xs ys i h

  pub get_elem?-append_cases :
      (xs : List A) (y : A) (i : ℕ) (x : A)
      → get_elem? (xs ++ y ∷ []) i ≡ some x
      → (get_elem? xs i ≡ some x) ⊎ (y ≡ x)
  get_elem?-append_cases [] y zero x h = inr (some-injective y x h)
  get_elem?-append_cases [] y (suc i) x h = absurd (none-ne-some h)
  get_elem?-append_cases (z ∷ xs) y zero x h = inl h
  get_elem?-append_cases (z ∷ xs) y (suc i) x h = get_elem?-append_cases xs y i x h
