-- ===== src/Handlers/Deployment/Running.antt =====
-- The end of `Deploy`, which starts the goroutine and the machine, and the goroutine.
pub mod Watching
use ukfaas.Prelude.{ℕ, suc, ◌≡◌, Bool, true, false, Option, none, some, List, [], ◌∷◌, ◌++◌, ◌+◌}
use ukfaas.Prelude.Lists.{if◌then◌else◌}
use ukfaas.Prelude.Text.{Text, text, ◌==◌, text_eq}
use ukfaas.Prelude.Map.{without}
use ukfaas.Prelude.Exec.{
  Outcome, ok, err, panic, blocked, Exec, ◌>>=◌, ◌>>◌, pure, fail, crash, lift, modify, wrap,
}
use ukfaas.Functions.{Registry, FunctionDeployment, FunctionResources, Manifest, Target}
use ukfaas.Functions.Add.{matches, require_package}
use ukfaas.Machines.Platform.{Machine, MachineState, Host, Iface, Volume, Answer}
use ukfaas.Machines.Create.{pick_iface}
use ukfaas.Handlers.Deployment.{
  Event, update, closed, failure, done, Kraft, Site, on_packages, on_host, ask, remove_all,
  cleaning, settled,
}
use ukfaas.Handlers.Deployment.Building.{build}

-- Whether an event ends the loop, and whether a shutdown is requested for it; `none` if the loop goes
-- on. A closed channel gives a nil machine.
unfoldable pub ends : Event → Option (Outcome Bool)
ends (update MachineState.exited) = some (ok true)
ends (update MachineState.failed) = some (ok true)
ends (update _) = none
ends closed = some panic
ends failure = some (ok true)
ends done = some (ok false)

unfoldable pub ended_or : Option (Outcome Bool) → Outcome Bool → Outcome Bool
ended_or none rest = rest
ended_or (some o) rest = o

-- The loop, which waits if nothing more comes.
unfoldable pub watch_loop : List Event → Outcome Bool
unfolding ends ended_or
watch_loop [] = blocked
watch_loop (e ∷ es) = ended_or (ends e) (watch_loop es)

module _ (R : Registry) (H : Host) (K : Kraft R H) where
  shutdown_if : Option Text → (Site R H K) → (Site R H K)
  shutdown_if none s = s
  shutdown_if (some e) s = record s { shutdowns = 1 + s.shutdowns }

  -- The goroutine is started, and then the machine; its name is printed.
  unfoldable pub start : Machine → Exec (Site R H K) (Unit {0})
  unfolding settled shutdown_if
  start m = do
    modify λ s. record s { watched = m ∷ s.watched }
    answer ← ask R H K (H.start m)
    modify (shutdown_if answer.error)
    started ← settled R H K answer.error answer.machine
    modify λ s. record s { printed = s.printed ++ started.name ∷ [] }

  unfoldable pub deploy : FunctionDeployment → Exec (Site R H K) (Unit {0})
  deploy req = do created ← build R H K req; start created

  -- An error of `Stop` or of `Delete` ends the goroutine.
  stop_and_delete : Machine → Exec (Site R H K) (Unit {0})
  stop_and_delete m = do
    answer ← ask R H K (H.stop m)
    lift (elim answer.error [ none ↦ ok tt | some e ↦ err e ])
    on_host R H K (K.delete m)

  request_if : Bool → (Site R H K) → (Site R H K)
  request_if b s = if b then record s { shutdowns = 1 + s.shutdowns } else s

  watching : Machine → Outcome (List Event) → Exec (Site R H K) (Unit {0})
  unfolding request_if stop_and_delete
  watching m (ok events) = do
    requested ← lift (watch_loop events)
    modify (request_if requested)
    stop_and_delete m
  watching m (err e) = modify (request_if true)
  watching m panic = crash
  watching m blocked = λ s. (blocked, s)

  -- The goroutine.
  unfoldable pub watch : Machine → Exec (Site R H K) (Unit {0})
  unfolding watching
  watch m s = let (r, w) = K.watch m s.host in watching m r (record s { host = w })
