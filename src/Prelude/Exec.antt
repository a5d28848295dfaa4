-- ===== src/Prelude/Exec.antt =====
-- What a Go call does to the state `S` that it works on, and what it returns. The state that a call
-- left behind is kept beside an error too, since Go rolls nothing back.
use ukfaas.Prelude.Text.{Text}
use mathlib.Core.Path.{◌≡◌}
use mathlib.Core.Option.{Option, none, some}
use mathlib.Core.List.{◌++◌}

-- `ok` returns a value and a nil error, `err` an error with its text; `panic` unwinds, and
-- `blocked` waits for a lock that its holder never releases.
pub data Outcome {ℓ} (A : Type ℓ) : Type ℓ where
  ok : A → Outcome A
  err : Text → Outcome A
  panic : Outcome A
  blocked : Outcome A

abbrev pub Exec {ℓ κ} : Type ℓ → Type κ → Type (ℓ ⊔ κ)
Exec S A = S → Outcome A × S

module _ {ℓ κ} {S : Type ℓ} {A : Type κ} where
  abbrev pub pure : A → Exec S A
  pure a s = (ok a, s)

  abbrev pub fail : Text → Exec S A
  fail e s = (err e, s)

  abbrev pub crash : Exec S A
  crash s = (panic, s)

  abbrev pub lift : Outcome A → Exec S A
  lift r s = (r, s)

  abbrev pub gets : (S → A) → Exec S A
  gets f s = (ok (f s), s)

abbrev pub modify {ℓ} : {S : Type ℓ} → (S → S) → Exec S (Unit {0})
modify f s = (ok tt, f s)

module _ {ℓ κ μ} {S : Type ℓ} {A : Type κ} {B : Type μ} where
  abbrev pub after : Outcome A → (A → Exec S B) → Exec S B
  after (ok a) f s = f a s
  after (err e) f s = (err e, s)
  after panic f s = (panic, s)
  after blocked f s = (blocked, s)

  infixl 5 ◌>>=◌
  abbrev pub ◌>>=◌ : Exec S A → (A → Exec S B) → Exec S B
  (m >>= f) s = after (m s).0 f (m s).1

infixl 5 ◌>>◌
abbrev pub ◌>>◌ {ℓ μ} : {S : Type ℓ} {B : Type μ} → Exec S (Unit {0}) → Exec S B → Exec S B
m >> k = m >>= λ _. k

-- `fmt.Errorf("…: %w", err)`
abbrev pub wrap {ℓ} : {A : Type ℓ} → Text → Outcome A → Outcome A
wrap note (ok a) = ok a
wrap note (err e) = err (note ++ e)
wrap note panic = panic
wrap note blocked = blocked

-- The text of an error, or nothing if there was none.
abbrev pub error_of {ℓ} : {A : Type ℓ} → Outcome A → Option Text
error_of (err e) = some e
error_of _ = none

pub ok-injective {ℓ} : {A : Type ℓ} {a b : A} → ok a ≡ ok b → a ≡ b
ok-injective e = cc
