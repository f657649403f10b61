-- ===== src/Base/Texts.antt =====
-- Texts as lists of bytes, and their equality.
use Prim.Native.Nat.{ℕ}
use mathlib.Core.Path.{◌≡◌, refl, ap₂}
use mathlib.Core.List.{List, [], ◌∷◌}
use native.Mathlib.Decide.{ℕ_discrete}
use native.Mathlib.Omega.{arith}

-- A `String` as the list of its UTF-8 bytes.
abbrev pub Name : Type 0
Name = List ℕ

cons_decide : (a b : ℕ) (s t : Name) → Dec (a ≡ b) → Dec (s ≡ t) → Dec (a ∷ s ≡ b ∷ t)
cons_decide a b s t (yes p) (yes q) = yes (ap₂ ◌∷◌ p q)
cons_decide a b s t (no p) d = no (λ e. p (ground arith))
cons_decide a b s t (yes p) (no q) = no (λ e. q (ground arith))

unfoldable pub name_discrete : Discrete Name
unfolding cons_decide ℕ_discrete
name_discrete [] [] = yes refl
name_discrete [] (b ∷ t) = no (λ e. cc)
name_discrete (a ∷ s) [] = no (λ e. cc)
name_discrete (a ∷ s) (b ∷ t) = cons_decide a b s t (ℕ_discrete a b) (name_discrete s t)
