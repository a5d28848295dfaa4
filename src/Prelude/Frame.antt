-- ===== src/Prelude/Frame.antt =====
-- What a call leaves unchanged, one rule for each way to build a call.
use mathlib.Core.Path.{◌≡◌, refl, ◌∙◌}
use ukfaas.Prelude.Text.{Text}
use ukfaas.Prelude.Lists.{if◌then◌else◌}
use ukfaas.Prelude.Exec.{
  Outcome, ok, err, panic, blocked, Exec, pure, fail, lift, gets, after, ◌>>=◌,
}
use mathlib.Core.Bool.{Bool, true, false}

-- `m` leaves what `view` shows of the state as it was, whatever it returns.
pub record Frame {ℓ κ μ} {S : Type ℓ} {A : Type κ} {B : Type μ} (view : S → B) (m : Exec S A)
    : Type (ℓ ⊔ μ) where
  pub at : (s : S) → view (m s).1 ≡ view s

module _ {ℓ κ μ} {S : Type ℓ} {A : Type κ} {B : Type μ} {view : S → B} where
  pub Frame-pure : (a : A) → Frame view (pure {S = S} a)
  Frame-pure a = record { at = λ s. refl }

  pub Frame-fail : (e : Text) → Frame view (fail {S = S} {A = A} e)
  Frame-fail e = record { at = λ s. refl }

  pub Frame-lift : (r : Outcome A) → Frame view (lift {S = S} r)
  Frame-lift r = record { at = λ s. refl }

  pub Frame-gets : (f : S → A) → Frame view (gets f)
  Frame-gets f = record { at = λ s. refl }

  pub Frame-if :
      (b : Bool) (m n : Exec S A) → Frame view m → Frame view n → Frame view (if b then m else n)
  Frame-if true m n hm hn = hm
  Frame-if false m n hm hn = hn

module _ {ℓ κ μ ν} {S : Type ℓ} {A : Type κ} {C : Type ν} {B : Type μ} {view : S → B} where
  pub Frame-bind :
      (m : Exec S A) (f : A → Exec S C)
      → Frame view m
      → ((a : A) → Frame view (f a))
      → Frame view (m >>= f)
  Frame-bind m f hm hf = record { at = λ s. after_outcome (m s).0 (m s).1 ∙ hm.at s }
    where
      after_outcome : (r : Outcome A) (s : S) → view (after r f s).1 ≡ view s
      after_outcome (ok a) s = (hf a).at s
      after_outcome (err e) s = refl
      after_outcome panic s = refl
      after_outcome blocked s = refl

pub ruleset frame_rules = (Frame-pure, Frame-fail, Frame-lift, Frame-gets, Frame-if, Frame-bind)
