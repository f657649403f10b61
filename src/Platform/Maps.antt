-- ===== src/Platform/Maps.antt =====
-- Laws of the maps of `dashmap`, derived from the documented ones of `Platform`.
use mathlib.Core.List.{lookup, List}
use tcpunch.Base.{
  [], ◌∷◌, some, none, refl, ◌≡◌, if_pos, if_neg, some, ◌≢◌, none, none-ne-some, ◌∙◌, ◌⊎◌, inl, sym,
  some-injective, inr, All, ne-of-some,
}
use tcpunch.Platform.{DashMap, IsKeyed}

module _ {K V : Type 0} {dec : Discrete K} (D : DashMap K V dec) where
  open D use {Map, get, insert, remove, get-insert, get-remove}

  pub get-insert_self : (m : Map) (k : K) (v : V) → get (insert m k v) k ≡ some v
  get-insert_self m k v = get-insert m k k v ∙ if_pos (dec k k) refl _ _

  pub get-insert_ne : (m : Map) (k j : K) (v : V) → k ≢ j → get (insert m k v) j ≡ get m j
  get-insert_ne m k j v h = get-insert m k j v ∙ if_neg (dec k j) h _ _

  pub get-remove_self : (m : Map) (k : K) → get (remove m k) k ≡ none
  get-remove_self m k = get-remove m k k ∙ if_pos (dec k k) refl _ _

  pub get-remove_ne : (m : Map) (k j : K) → k ≢ j → get (remove m k) j ≡ get m j
  get-remove_ne m k j h = get-remove m k j ∙ if_neg (dec k j) h _ _

  -- Where an entry of an updated map comes from.
  pub get-insert_cases :
      (m : Map) (k j : K) (v w : V)
      → get (insert m k v) j ≡ some w
      → ((k ≡ j) × (v ≡ w)) ⊎ ((k ≢ j) × (get m j ≡ some w))
  get-insert_cases m k j v w h = elim (dec k j) [
    | yes p ↦
        inl (p, some-injective _ _ (sym (if_pos (dec k j) p _ _) ∙ sym (get-insert m k j v) ∙ h))
    | no p ↦ inr (p, sym (get-insert_ne m k j v p) ∙ h)
  ]

  pub get-remove_cases :
      (m : Map) (k j : K) (w : V) → get (remove m k) j ≡ some w → (k ≢ j) × (get m j ≡ some w)
  get-remove_cases m k j w h = elim (dec k j) [
    | yes p ↦ absurd (none-ne-some (sym (get-remove m k j ∙ if_pos (dec k j) p _ _) ∙ h))
    | no p ↦ (p, sym (get-remove_ne m k j p) ∙ h)
  ]

-- What holds of every entry that a lookup finds holds of the whole list.
pub All-of-lookup {ℓ} :
    {K V : Type 0} (dec : Discrete K) (Q : K × V → Type ℓ) (es : List (K × V))
    → IsKeyed dec es
    → ((k : K) (v : V) → lookup dec k es ≡ some v → Q (k, v))
    → All Q es
unfolding lookup
All-of-lookup dec Q [] keyed h = tt
All-of-lookup {K} {V} dec Q ((k, v) ∷ es) keyed h =
    (h k v (if_pos (dec k k) refl _ _), All-of-lookup dec Q es keyed.1 rest)
  where
    rest : (j : K) (w : V) → lookup dec j es ≡ some w → Q (j, w)
    rest j w e = elim (dec j k) [
      | yes p ↦ absurd (ne-of-some {a = w} keyed.0 (rw (← p) e))
      | no p ↦ h j w (if_neg (dec j k) p _ _ ∙ e)
    ]
