-- ===== src/Handlers/Deployment/Running/Watching.antt =====
-- The goroutine of `Deploy` and the requests of a shutdown.
use ukfaas.Prelude.{ℕ, ◌≡◌, ap, Option, none, some, List, [], ◌∷◌, ◌++◌, ◌+◌, ◌⊎◌, inl, inr, arith}
use ukfaas.Prelude.Text.{Text}
use ukfaas.Prelude.Exec.{Outcome, ok, err, panic, blocked, ◌>>=◌, after as after_outcome, modify}
use ukfaas.Functions.{Registry, FunctionDeployment}
use ukfaas.Machines.Platform.{Machine, Host}
use ukfaas.Handlers.Deployment.{Kraft, settled}
use ukfaas.Handlers.Deployment.Building.{build}
use ukfaas.Handlers.Deployment.Building.Quiet.{Place, signs, build-Frame}
use ukfaas.Handlers.Deployment.Running.{shutdown_if, start, deploy}

module _ (R : Registry) (H : Host) (K : Kraft R H) where
  -- One more machine has its goroutine, and `n` more shutdowns are requested.
  abbrev pub Launched : ℕ → Place R H K → Place R H K → Type 0
  Launched n s s' =
      ((m : Machine) × (s'.watched ≡ m ∷ s.watched)) × (s'.shutdowns ≡ n + s.shutdowns)

  abbrev pub Watched : Place R H K → Outcome (Unit {0}) × Place R H K → Type 0
  Watched s (ok u, s') = Launched 0 s s'
  Watched s (err e, s') = (signs R H K s' ≡ signs R H K s) ⊎ Launched 1 s s'
  Watched s (panic, s') = (signs R H K s' ≡ signs R H K s) ⊎ Launched 0 s s' ⊎ Launched 1 s s'
  Watched s (blocked, s') = signs R H K s' ≡ signs R H K s

  -- The answer of the start, once the goroutine of `m` is there.
  answered :
      (m : Machine) (e : Option Text) (left : Option Machine) (s t : Place R H K)
      → t.watched ≡ m ∷ s.watched
      → t.shutdowns ≡ s.shutdowns
      → Watched s (
          (settled R H K e left >>= λ (x : Machine).
          modify λ (u : Place R H K). record u { printed = u.printed ++ x.name ∷ [] })
            (shutdown_if R H K e t))
  unfolding settled shutdown_if
  answered m none none s t w n = inr (inl ((m, w), ground (arith, n)))
  answered m none (some x) s t w n = ((m, w), ground (arith, n))
  answered m (some e) none s t w n = inr (inr ((m, w), ground (arith, n)))
  answered m (some e) (some x) s t w n = inr ((m, w), ground (arith, n))

  started :
      (o : Outcome Machine) (s s' : Place R H K)
      → signs R H K s' ≡ signs R H K s
      → Watched s (after_outcome o (start R H K) s')
  unfolding start
  started (ok m) s s' e =
      let answer = (H.start m s'.host).0 in
      answered m answer.error answer.machine s
        (record s' { watched = m ∷ s'.watched; host = (H.start m s'.host).1 })
        (ap (λ (x : List Machine × ℕ). m ∷ x.0) e) (ap (λ (x : List Machine × ℕ). x.1) e)
  started (err x) s s' e = inl e
  started panic s s' e = inl e
  started blocked s s' e = e

  -- `Deploy` starts the goroutine of one machine and requests no shutdown if it returns a nil error. An
  -- error comes before both, or is that of the start, after one of each; a panic comes before both, or
  -- after the goroutine, with at most one shutdown requested; a wait for ever comes before both.
  pub deploy-Watched : (req : FunctionDeployment) (s : Place R H K) → Watched s (deploy R H K req s)
  unfolding deploy
  deploy-Watched req s =
      let out = build R H K req s in started out.0 s out.1 ((build-Frame R H K req).at s)
