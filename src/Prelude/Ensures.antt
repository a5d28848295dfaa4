-- ===== src/Prelude/Ensures.antt =====
-- What holds of the value that a call returns, and of the state that it leaves with it.
use mathlib.Core.Path.{◌≡◌, refl}
use ukfaas.Prelude.Exec.{Outcome, ok, err, panic, blocked, Exec, after, ◌>>=◌}

-- If `m` returns `a`, then `P` holds of it.
pub record Ensures {ℓ κ μ} {S : Type ℓ} {A : Type κ} (P : A → Type μ) (m : Exec S A)
    : Type (ℓ ⊔ κ ⊔ μ) where
  pub at : (s : S) (a : A) → (m s).0 ≡ ok a → P a

module _ {ℓ κ μ ν} {S : Type ℓ} {A : Type κ} {C : Type ν} {P : C → Type μ} where
  -- The value comes from the last call.
  pub Ensures-bind :
      (m : Exec S A) (f : A → Exec S C) → ((a : A) → Ensures P (f a)) → Ensures P (m >>= f)
  Ensures-bind m f hf = record { at = λ s c. from (m s).0 (m s).1 c }
    where
      from : (r : Outcome A) (s : S) (c : C) → (after r f s).0 ≡ ok c → P c
      from (ok a) s c e = (hf a).at s c e
      from (err x) s c e = cc
      from panic s c e = cc
      from blocked s c e = cc

module _ {ℓ κ μ ν ρ} {S : Type ℓ} {A : Type κ} {C : Type ν} {P : C → Type μ} where
  -- What is ensured of the value of the first call may be used for the rest.
  pub Ensures-bind_of :
      (Q : A → Type ρ) (m : Exec S A) (f : A → Exec S C)
      → Ensures Q m
      → ((a : A) → Q a → Ensures P (f a))
      → Ensures P (m >>= f)
  Ensures-bind_of Q m f hm hf = record { at = λ s c. from (m s).0 (m s).1 c (hm.at s) }
    where
      from :
          (r : Outcome A) (s : S) (c : C)
          → ((a : A) → r ≡ ok a → Q a)
          → (after r f s).0 ≡ ok c
          → P c
      from (ok a) s c q e = (hf a (q a refl)).at s c e
      from (err x) s c q e = cc
      from panic s c q e = cc
      from blocked s c q e = cc
