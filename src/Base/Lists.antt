-- ===== src/Base/Lists.antt =====
-- Lists measured and indexed by native numbers, under the library's names.
use Prim.Native.Nat.{ℕ, zero, suc, ◌+◌, ◌-◌, ◌≤◌}
use mathlib.Core.Path.{◌≡◌, refl, ap, subst}
use mathlib.Core.List.{List, [], ◌∷◌, ◌++◌}
use mathlib.Core.Option.{Option, none, some, some-injective}
use native.Mathlib.Omega.{arith}

module _ {ℓ} {A : Type ℓ} where
  abbrev pub length : List A → ℕ
  length [] = 0
  length (x ∷ xs) = suc (length xs)

  abbrev pub get_or : List A → ℕ → A → A
  get_or [] i d = d
  get_or (x ∷ xs) zero d = x
  get_or (x ∷ xs) (suc i) d = get_or xs i d

  abbrev pub take : ℕ → List A → List A
  take zero xs = []
  take (suc n) [] = []
  take (suc n) (x ∷ xs) = x ∷ take n xs

  abbrev pub drop : ℕ → List A → List A
  drop zero xs = xs
  drop (suc n) [] = []
  drop (suc n) (x ∷ xs) = drop n xs

  abbrev pub replicate : ℕ → A → List A
  replicate zero a = []
  replicate (suc n) a = a ∷ replicate n a

  pub length-append : (xs ys : List A) → length (xs ++ ys) ≡ length xs + length ys
  length-append [] ys = omega arith
  length-append (x ∷ xs) ys = omega (arith, length-append xs ys)

  pub length-replicate : (n : ℕ) (a : A) → length (replicate n a) ≡ n
  length-replicate zero a = refl
  length-replicate (suc n) a = ap suc (length-replicate n a)

  pub length-take_of_le : (n : ℕ) (xs : List A) → n ≤ length xs → length (take n xs) ≡ n
  length-take_of_le zero xs h = refl
  length-take_of_le (suc n) [] h = absurd (omega arith)
  length-take_of_le (suc n) (x ∷ xs) h = ap suc (length-take_of_le n xs (omega arith))

  -- `take` and `drop` at the seam of an append.
  pub take-append_self : (n : ℕ) (xs ys : List A) → length xs ≡ n → take n (xs ++ ys) ≡ xs
  take-append_self zero [] ys h = refl
  take-append_self (suc n) [] ys h = absurd (omega arith)
  take-append_self zero (x ∷ xs) ys h = absurd (omega arith)
  take-append_self (suc n) (x ∷ xs) ys h = ap (◌∷◌ x) (take-append_self n xs ys (omega arith))

  pub drop-append_self : (n : ℕ) (xs ys : List A) → length xs ≡ n → drop n (xs ++ ys) ≡ ys
  drop-append_self zero [] ys h = refl
  drop-append_self (suc n) [] ys h = absurd (omega arith)
  drop-append_self zero (x ∷ xs) ys h = absurd (omega arith)
  drop-append_self (suc n) (x ∷ xs) ys h = drop-append_self n xs ys (omega arith)

  pub take_of_length-le : (n : ℕ) (xs : List A) → length xs ≤ n → take n xs ≡ xs
  take_of_length-le (suc n) (x ∷ xs) h =
      let rest : take n xs ≡ xs = take_of_length-le n xs (omega arith) in rw rest
  take_of_length-le (suc n) [] _ = refl
  take_of_length-le zero [] _ = refl
  take_of_length-le zero (x ∷ xs) h = absurd (omega arith)

  pub drop-replicate : (n m : ℕ) (a : A) → drop n (replicate m a) ≡ replicate (m - n) a
  drop-replicate zero m a = let e : m - 0 ≡ m = omega arith in rw e
  drop-replicate (suc n) zero a = let e : 0 - suc n ≡ 0 = omega arith in rw e
  drop-replicate (suc n) (suc m) a =
      let e : suc m - suc n ≡ m - n = omega arith in rw e (drop-replicate n m a)

  pub replicate-append : (n m : ℕ) (a : A) → replicate n a ++ replicate m a ≡ replicate (n + m) a
  replicate-append zero m a = let e : 0 + m ≡ m = omega arith in rw e
  replicate-append (suc n) m a =
      let e : suc n + m ≡ suc (n + m) = omega arith in rw e (ap (◌∷◌ a) (replicate-append n m a))

-- A predicate at every entry of a list.
abbrev pub All {ℓ κ} : {A : Type ℓ} → (A → Type κ) → List A → Type κ
All P [] = Unit
All P (x ∷ xs) = P x × All P xs

pub All-append {ℓ κ} :
    {A : Type ℓ} (P : A → Type κ) (xs ys : List A) → All P xs → All P ys → All P (xs ++ ys)
All-append P [] ys none_left also = also
All-append P (x ∷ xs) ys (first, rest) also = (first, All-append P xs ys rest also)

pub All-replicate {ℓ κ} :
    {A : Type ℓ} (P : A → Type κ) (n : ℕ) {a : A} → P a → All P (replicate n a)
All-replicate P zero h = tt
All-replicate P (suc n) h = (h, All-replicate P n h)

module _ {ℓ} {A : Type ℓ} where
  pub drop-add : (n m : ℕ) (xs : List A) → drop (n + m) xs ≡ drop m (drop n xs)
  drop-add zero m xs = let e : 0 + m ≡ m = omega arith in rw e
  drop-add (suc n) zero [] = let e : suc n + 0 ≡ suc n = omega arith in rw e
  drop-add (suc n) (suc m) [] = let e : suc n + suc m ≡ suc (n + suc m) = omega arith in rw e
  drop-add (suc n) m (x ∷ xs) =
      let e : suc n + m ≡ suc (n + m) = omega arith in rw e (drop-add n m xs)

  pub take-length : (xs ys : List A) → take (length xs) (xs ++ ys) ≡ xs
  take-length xs ys = take-append_self (length xs) xs ys refl

  pub length-drop : (n : ℕ) (xs : List A) → length (drop n xs) ≡ length xs - n
  length-drop zero xs = omega arith
  length-drop (suc n) [] = omega arith
  length-drop (suc n) (x ∷ xs) = omega (arith, length-drop n xs)

-- A buffer of zero bytes.
abbrev pub zeros : ℕ → List ℕ
zeros n = replicate n 0

pub length-zeros : (n : ℕ) → length (zeros n) ≡ n
length-zeros n = length-replicate n (zero)

pub zeros-append : (n m : ℕ) → zeros n ++ zeros m ≡ zeros (n + m)
zeros-append n m = replicate-append n m (zero)

pub All-weaken {ℓ κ μ} :
    {A : Type ℓ} (P : A → Type κ) (Q : A → Type μ)
    → ((a : A) → P a → Q a)
    → (xs : List A) → All P xs
    → All Q xs
All-weaken P Q f [] h = tt
All-weaken P Q f (x ∷ xs) h = (f x h.0, All-weaken P Q f xs h.1)

pub All-take {ℓ κ} :
    {A : Type ℓ} (P : A → Type κ) (n : ℕ) (xs : List A) → All P xs → All P (take n xs)
All-take P zero xs h = tt
All-take P (suc n) [] h = tt
All-take P (suc n) (x ∷ xs) h = (h.0, All-take P n xs h.1)

pub length-take_le {ℓ} : {A : Type ℓ} (n : ℕ) (xs : List A) → length (take n xs) ≤ n
length-take_le zero xs = omega arith
length-take_le (suc n) [] = omega arith
length-take_le (suc n) (x ∷ xs) = omega (arith, length-take_le n xs)

module _ {ℓ} {A : Type ℓ} where
  abbrev pub get_elem? : List A → ℕ → Option A
  get_elem? [] i = none
  get_elem? (x ∷ xs) zero = some x
  get_elem? (x ∷ xs) (suc i) = get_elem? xs i

  abbrev pub set : List A → ℕ → A → List A
  set [] i v = []
  set (x ∷ xs) zero v = v ∷ xs
  set (x ∷ xs) (suc i) v = x ∷ set xs i v

  -- The sum of a weight over a list.
  abbrev pub total : (A → ℕ) → List A → ℕ
  total w [] = 0
  total w (x ∷ xs) = w x + total w xs

  pub total-append : (w : A → ℕ) (xs ys : List A) → total w (xs ++ ys) ≡ total w xs + total w ys
  total-append w [] ys = omega arith
  total-append w (x ∷ xs) ys = omega (arith, total-append w xs ys)

  -- Replacing an entry moves its weight from the old to the new.
  pub total-set :
      (w : A → ℕ) (xs : List A) (i : ℕ) {old : A} (v : A)
      → get_elem? xs i ≡ some old
      → total w (set xs i v) + w old ≡ total w xs + w v
  total-set w [] i v h = ground arith
  total-set w (x ∷ xs) zero {old} v h =
      let e : w x ≡ w old = ap w (some-injective x old h) in omega arith
  total-set w (x ∷ xs) (suc i) v h = omega (arith, total-set w xs i v h)

-- An entry weighs no more than the list.
pub total-get {ℓ} :
    {A : Type ℓ} (w : A → ℕ) (xs : List A) (i : ℕ) {x : A}
    → get_elem? xs i ≡ some x
    → w x ≤ total w xs
total-get w [] i h = ground arith
total-get w (y ∷ ys) zero {x} h = let e : w y ≡ w x = ap w (some-injective y x h) in omega arith
total-get w (y ∷ ys) (suc i) h = omega (arith, total-get w ys i h)

pub All-get {ℓ κ} :
    {A : Type ℓ} (P : A → Type κ) (xs : List A) (i : ℕ) {x : A}
    → All P xs
    → get_elem? xs i ≡ some x
    → P x
All-get P [] i h e = ground arith
All-get P (y ∷ ys) zero {x} h e = subst P (some-injective y x e) h.0
All-get P (y ∷ ys) (suc i) h e = All-get P ys i h.1 e

pub All-set {ℓ κ} :
    {A : Type ℓ} (P : A → Type κ) (xs : List A) (i : ℕ) {v : A}
    → All P xs
    → P v
    → All P (set xs i v)
All-set P [] i h p = tt
All-set P (x ∷ xs) zero h p = (p, h.1)
All-set P (x ∷ xs) (suc i) h p = (h.0, All-set P xs i h.1 p)
