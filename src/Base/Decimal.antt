-- ===== src/Base/Decimal.antt =====
-- Numbers as decimal digits in ASCII, the way `{}` of a format string writes them.
use Prim.Native.Nat.{ℕ, zero, suc, ◌+◌, ◌-◌, ◌*◌, ◌/◌, ◌%◌, ◌<◌}
use mathlib.Core.Path.{◌≡◌, refl, ap, ◌∙◌}
use mathlib.Core.Logic.{◌≢◌, inl, inr}
use mathlib.Core.Option.{Option, none, some, some-injective}
use mathlib.Core.List.{List, [], ◌∷◌, ◌++◌}
use mathlib.Core.Bool.{Bool, true, ◌&&◌}
use native.Mathlib.Omega.{arith}
use native.Mathlib.Decide.{dec_lt}
use tcpunch.Base.Tests.{Bool-cases, none-ne-some, leb, if◌then◌else◌}
use tcpunch.Base.Lists.{All, All-append}

abbrev pub digit : ℕ → ℕ
digit d = 48 + d

-- On fuel; a number has fewer digits than its successor says.
abbrev pub digits : ℕ → ℕ → List ℕ
digits zero n = []
digits (suc fuel) n = elim (dec_lt n 10) [
  | yes small ↦ digit n ∷ []
  | no large ↦ digits fuel (n / 10) ++ digit (n % 10) ∷ []
]

unfoldable pub decimal : ℕ → List ℕ
decimal n = digits (n + 1) n

abbrev pub is_digit : ℕ → Bool
is_digit c = leb 48 c && leb c 57

-- The number that the digits of a text go on to, after a number.
abbrev pub read_digits : ℕ → List ℕ → Option ℕ
read_digits n [] = some n
read_digits n (c ∷ cs) =
    let rest = read_digits (n * 10 + (c - 48)) cs in if is_digit c then rest else none

unfoldable pub parse_decimal : List ℕ → Option ℕ
parse_decimal [] = none
parse_decimal (c ∷ cs) = read_digits 0 (c ∷ cs)

is_digit-digit : (d : ℕ) → d < 10 → is_digit (digit d) ≡ true
is_digit-digit d h = ground arith

one_digit : (m d : ℕ) → d < 10 → read_digits m (digit d ∷ []) ≡ some (m * 10 + d)
one_digit m d h =
    let e : m * 10 + (digit d - 48) ≡ m * 10 + d = omega arith in rw (is_digit-digit d h, e) refl

read_digits-append :
    (xs : List ℕ) (m v d : ℕ)
    → read_digits m xs ≡ some v
    → d < 10
    → read_digits m (xs ++ digit d ∷ []) ≡ some (v * 10 + d)
read_digits-append [] m v d h small = rw (some-injective m v h) (one_digit v d small)
read_digits-append (c ∷ xs) m v d h small = elim (Bool-cases (is_digit c)) [
  | inl e ↦ rw e (read_digits-append xs (m * 10 + (c - 48)) v d (rw e at h) small)
  | inr e ↦ absurd (none-ne-some {a = v} (rw e at h))
]

read_digits-digits : (fuel n : ℕ) → n < fuel → read_digits 0 (digits fuel n) ≡ some n
read_digits-digits zero n h = absurd (omega (arith, h))
read_digits-digits (suc fuel) n h =
    elim (dec_lt n 10)
      as (λ d.
        read_digits 0 (elim d [
          | yes small ↦ digit n ∷ []
          | no large ↦ digits fuel (n / 10) ++ digit (n % 10) ∷ []
        ])
        ≡ some n) [
          | yes small ↦
              let e : 0 * 10 + n ≡ n = omega arith in one_digit 0 n small ∙ ap (λ m. some m) e
          | no large ↦
              let e : n / 10 * 10 + n % 10 ≡ n = omega arith in
              read_digits-append (digits fuel (n / 10)) 0 (n / 10) (n % 10)
                (read_digits-digits fuel (n / 10) (omega (arith, h, large))) (omega arith)
              ∙ ap (λ m. some m) e
        ]

parse-read : (xs : List ℕ) (c : ℕ) → parse_decimal (xs ++ c ∷ []) ≡ read_digits 0 (xs ++ c ∷ [])
unfolding parse_decimal
parse-read [] c = refl
parse-read (x ∷ xs) c = refl

-- The digits of a number are read as the number.
pub parse_decimal-decimal : (n : ℕ) → parse_decimal (decimal n) ≡ some n
unfolding decimal
parse_decimal-decimal n = go n (n + 1) (omega arith)
  where
    go : (m fuel : ℕ) → m < fuel → parse_decimal (digits fuel m) ≡ some m
    go m zero h = absurd (omega (arith, h))
    go m (suc fuel) h =
        elim (dec_lt m 10)
            as (λ d.
              read_digits 0 (elim d [
                | yes small ↦ digit m ∷ []
                | no large ↦ digits fuel (m / 10) ++ digit (m % 10) ∷ []
              ])
                ≡ some m
              → parse_decimal (elim d [
                | yes small ↦ digit m ∷ []
                | no large ↦ digits fuel (m / 10) ++ digit (m % 10) ∷ []
              ])
                ≡ some m) [
                  | yes small ↦ λ e. parse-read [] (digit m) ∙ e
                  | no large ↦ λ e. parse-read (digits fuel (m / 10)) (digit (m % 10)) ∙ e
                ]
          (read_digits-digits (suc fuel) m h)

-- No digit is a newline.
pub All-digits : (fuel n : ℕ) → All (λ c. c ≢ 10) (digits fuel n)
All-digits zero n = tt
All-digits (suc fuel) n =
    elim (dec_lt n 10)
      as (λ d.
        All (λ c. c ≢ 10)
          (elim d [
            | yes small ↦ digit n ∷ []
            | no large ↦ digits fuel (n / 10) ++ digit (n % 10) ∷ []
          ])) [
            | yes small ↦ (λ e. omega (arith, e), tt)
            | no large ↦
                All-append (λ c. c ≢ 10) (digits fuel (n / 10)) (digit (n % 10) ∷ [])
                  (All-digits fuel (n / 10)) (λ e. omega (arith, e), tt)
          ]

pub All-decimal : (n : ℕ) → All (λ c. c ≢ 10) (decimal n)
unfolding decimal
All-decimal n = All-digits (n + 1) n
