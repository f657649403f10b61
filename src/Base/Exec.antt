-- ===== src/Base/Exec.antt =====
-- Calls on a shared state that may fail. The state comes back beside an error too, since what was
-- done before it stays done.
use mathlib.Core.Option.{Option, none, some}
use mathlib.Core.Path.{◌≡◌, refl}
use tcpunch.Base.Fallible.{Result, ok, err}

abbrev pub Exec : Type 0 → Type 0 → Type 0 → Type 0
Exec S E A = S → S × Result A E

module _ {S E A : Type 0} where
  abbrev pub pure : A → Exec S E A
  pure a s = (s, ok a)

  abbrev pub raise : E → Exec S E A
  raise e s = (s, err e)

  abbrev pub gets : (S → A) → Exec S E A
  gets f s = (s, ok (f s))

  abbrev pub or_raise : E → Option A → Exec S E A
  or_raise e none = raise e
  or_raise e (some a) = pure a

-- `unwrap_or` of what a call returns.
abbrev pub unwrap_or : {A E : Type 0} → A → Result A E → A
unwrap_or default (ok a) = a
unwrap_or default (err e) = default

abbrev pub continue : {S E A B : Type 0} → Result A E → (A → Exec S E B) → Exec S E B
continue (ok a) f = f a
continue (err e) f = raise e

infixl 5 ◌>>=◌ ◌>>◌
abbrev pub ◌>>=◌ : {S E A B : Type 0} → Exec S E A → (A → Exec S E B) → Exec S E B
◌>>=◌ m f s = let (s', r) = m s in continue r f s'

abbrev pub ◌>>◌ : {S E A B : Type 0} → Exec S E A → Exec S E B → Exec S E B
m >> k = m >>= λ _. k

module _ {S E A B : Type 0} (m : Exec S E A) (f : A → Exec S E B) {s s' : S} where
  pub bind_ok : {a : A} → m s ≡ (s', ok a) → (m >>= f) s ≡ f a s'
  bind_ok e = rw (e, ◌>>=◌) refl

  pub bind_err : {x : E} → m s ≡ (s', err x) → (m >>= f) s ≡ (s', err x)
  bind_err e = rw (e, ◌>>=◌) refl
