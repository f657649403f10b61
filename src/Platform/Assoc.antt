-- ===== src/Platform/Assoc.antt =====
-- A map over an association list: a value of the `DashMap` interface, for the tests.
use mathlib.Core.List.{lookup, List}
use tcpunch.Base.{
  refl, some, none, [], ◌∷◌, Bool, Bool-cases, ◌≢◌, if_pos, ite, ◌≡◌, if_neg, sym, inl, ne-of-some,
  suc, inr, ◌∙◌, ap, none-ne-some, length,
}
use tcpunch.Platform.{DashMap, IsKeyed, visit}

module _ {K V : Type 0} (dec : Discrete K) where
  abbrev pub erase_key : K → List (K × V) → List (K × V)
  erase_key k [] = []
  erase_key k ((j, v) ∷ es) = ite (dec k j) es ((j, v) ∷ erase_key k es)

  pub lookup-cons_self : (k : K) (v : V) (es : List (K × V)) → lookup dec k ((k, v) ∷ es) ≡ some v
  unfolding lookup
  lookup-cons_self k v es = if_pos (dec k k) refl _ _

  pub lookup-cons_ne :
      (k j : K) (v : V) (es : List (K × V)) → j ≢ k → lookup dec j ((k, v) ∷ es) ≡ lookup dec j es
  unfolding lookup
  lookup-cons_ne k j v es h = if_neg (dec j k) h _ _

  pub lookup-erase_ne :
      (k j : K) (es : List (K × V)) → k ≢ j → lookup dec j (erase_key k es) ≡ lookup dec j es
  lookup-erase_ne k j [] h = refl
  lookup-erase_ne k j ((i, v) ∷ es) h = elim (dec k i) [
    | yes p ↦
        rw (if_pos (dec k i) p es ((i, v) ∷ erase_key k es))
          (sym (lookup-cons_ne i j v es (λ q. h (p ∙ sym q))))
    | no p ↦ rw (if_neg (dec k i) p es ((i, v) ∷ erase_key k es)) (elim (dec j i) [
      | yes q ↦ rw q (lookup-cons_self i v (erase_key k es) ∙ sym (lookup-cons_self i v es))
      | no q ↦
          lookup-cons_ne i j v (erase_key k es) q
          ∙ lookup-erase_ne k j es h
          ∙ sym (lookup-cons_ne i j v es q)
    ])
  ]

  pub lookup-erase_self :
      (k : K) (es : List (K × V)) → IsKeyed dec es → lookup dec k (erase_key k es) ≡ none
  lookup-erase_self k [] h = unfold lookup in refl
  lookup-erase_self k ((i, v) ∷ es) h = elim (dec k i) [
    | yes p ↦ rw (if_pos (dec k i) p es ((i, v) ∷ erase_key k es), p) h.0
    | no p ↦
        rw (if_neg (dec k i) p es ((i, v) ∷ erase_key k es))
          (lookup-cons_ne i k v (erase_key k es) p ∙ lookup-erase_self k es h.1)
  ]

  pub erase-IsKeyed : (k : K) (es : List (K × V)) → IsKeyed dec es → IsKeyed dec (erase_key k es)
  erase-IsKeyed k [] h = tt
  erase-IsKeyed k ((i, v) ∷ es) h = elim (dec k i) [
    | yes p ↦ rw (if_pos (dec k i) p es ((i, v) ∷ erase_key k es)) h.1
    | no p ↦
        rw (if_neg (dec k i) p es ((i, v) ∷ erase_key k es))
          (lookup-erase_ne k i es p ∙ h.0, erase-IsKeyed k es h.1)
  ]

  pub erase_absent : (k : K) (es : List (K × V)) → lookup dec k es ≡ none → erase_key k es ≡ es
  erase_absent k [] h = refl
  erase_absent k ((i, v) ∷ es) h = elim (dec k i) [
    | yes p ↦ absurd (ne-of-some {a = v} h (rw p (lookup-cons_self i v es)))
    | no p ↦
        if_neg (dec k i) p es ((i, v) ∷ erase_key k es)
        ∙ ap (◌∷◌ (i, v)) (erase_absent k es (sym (lookup-cons_ne i k v es p) ∙ h))
  ]

  pub length-erase :
      (k : K) (v : V) (es : List (K × V))
      → lookup dec k es ≡ some v
      → suc (length (erase_key k es)) ≡ length es
  length-erase k v [] h = unfold lookup in absurd (none-ne-some h)
  length-erase k v ((i, w) ∷ es) h = elim (dec k i) [
    | yes p ↦ rw (if_pos (dec k i) p es ((i, w) ∷ erase_key k es))
    | no p ↦
        rw (if_neg (dec k i) p es ((i, w) ∷ erase_key k es))
          (ap suc (length-erase k v es (sym (lookup-cons_ne i k w es p) ∙ h)))
  ]

  -- A walk leaves no key that was not there, and none twice.
  lookup-visit-none :
      {S : Type 0} (f : S → K → V → S × Bool) (s : S) (k : K) (es : List (K × V))
      → lookup dec k es ≡ none
      → lookup dec k (visit f s es).1 ≡ none
  lookup-visit-none f s k [] h = h
  lookup-visit-none f s k ((i, v) ∷ es) h = elim (dec k i) [
    | yes p ↦ absurd (ne-of-some {a = v} h (rw p (lookup-cons_self i v es)))
    | no p ↦ elim (Bool-cases (f s i v).1) [
      | inl keep ↦ rw keep (
          lookup-cons_ne i k v _ p
          ∙ lookup-visit-none f (f s i v).0 k es (sym (lookup-cons_ne i k v es p) ∙ h))
      | inr drop ↦
          rw drop (lookup-visit-none f (f s i v).0 k es (sym (lookup-cons_ne i k v es p) ∙ h))
    ]
  ]

  pub visit-IsKeyed :
      {S : Type 0} (f : S → K → V → S × Bool) (s : S) (es : List (K × V))
      → IsKeyed dec es
      → IsKeyed dec (visit f s es).1
  visit-IsKeyed f s [] h = tt
  visit-IsKeyed f s ((i, v) ∷ es) h = elim (Bool-cases (f s i v).1) [
    | inl keep ↦
        rw keep (lookup-visit-none f (f s i v).0 i es h.0, visit-IsKeyed f (f s i v).0 es h.1)
    | inr drop ↦ rw drop (visit-IsKeyed f (f s i v).0 es h.1)
  ]

-- An association list with no key twice.
pub record Assoc (K V : Type 0) (dec : Discrete K) : Type 0 where
  pub items : List (K × V)
  pub keyed : IsKeyed dec items

module _ {K V : Type 0} (dec : Discrete K) where
  abbrev pub insert_assoc : Assoc K V dec → K → V → Assoc K V dec
  insert_assoc m k v = record {
    items = (k, v) ∷ erase_key dec k m.items;
    keyed = (lookup-erase_self dec k m.items m.keyed, erase-IsKeyed dec k m.items m.keyed);
  }

  pub lookup-insert_assoc :
      (m : Assoc K V dec) (k j : K) (v : V)
      → lookup dec j (insert_assoc m k v).items ≡ ite (dec k j) (some v) (lookup dec j m.items)
  lookup-insert_assoc m k j v = elim (dec k j) [
    | yes p ↦
        rw (← p)
          (lookup-cons_self dec k v (erase_key dec k m.items) ∙ sym (if_pos (dec k k) refl _ _))
    | no p ↦
        lookup-cons_ne dec k j v (erase_key dec k m.items) (λ q. p (sym q))
        ∙ lookup-erase_ne dec k j m.items p
        ∙ sym (if_neg (dec k j) p _ _)
  ]

  pub lookup-erase :
      (m : Assoc K V dec) (k j : K)
      → lookup dec j (erase_key dec k m.items) ≡ ite (dec k j) none (lookup dec j m.items)
  lookup-erase m k j = elim (dec k j) [
    | yes p ↦ rw (← p) (lookup-erase_self dec k m.items m.keyed ∙ sym (if_pos (dec k k) refl _ _))
    | no p ↦ lookup-erase_ne dec k j m.items p ∙ sym (if_neg (dec k j) p _ _)
  ]

  pub length-insert_new :
      (m : Assoc K V dec) (k : K) (v : V)
      → lookup dec k m.items ≡ none
      → length (insert_assoc m k v).items ≡ suc (length m.items)
  length-insert_new m k v h =
      ap (λ (es : List (K × V)). suc (length es)) (erase_absent dec k m.items h)

  pub lookup-empty : (k : K) → lookup {B = V} dec k [] ≡ none
  unfolding lookup
  lookup-empty k = refl

abbrev pub assoc_map : (K V : Type 0) (dec : Discrete K) → DashMap K V dec
assoc_map K V dec = record {
  Map = Assoc K V dec;
  new = record { items = []; keyed = tt };
  get = λ m k. lookup dec k m.items;
  insert = insert_assoc dec;
  remove = λ m k. record {
    items = erase_key dec k m.items;
    keyed = erase-IsKeyed dec k m.items m.keyed;
  };
  len = λ m. length m.items;
  entries = λ m. m.items;
  retain = λ f s m. (
    (visit f s m.items).0,
    record { items = (visit f s m.items).1; keyed = visit-IsKeyed dec f s m.items m.keyed },
  );
  get-new = lookup-empty dec;
  get-insert = lookup-insert_assoc dec;
  get-remove = lookup-erase dec;
  lookup-entries = λ m k. refl;
  entries-IsKeyed = λ m. m.keyed;
  len-entries = λ m. refl;
  len-new = refl;
  len-insert_new = length-insert_new dec;
  len-insert_old = λ m k v w h. length-erase dec k w m.items h;
  len-remove_some = λ m k v h. length-erase dec k v m.items h;
  len-remove_none = λ m k h. ap length (erase_absent dec k m.items h);
  retain-state = λ f s m. refl;
  get-retain = λ f s m k. refl;
  len-retain = λ f s m. refl;
}
