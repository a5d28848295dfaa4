-- ===== src/Machines/Scale.antt =====
-- `ScaleMachinesTo`, `StopAllMachines` and the health checks of the machine store. The goroutines of
-- `ScaleMachinesTo` are run one after another.
pub mod Scaling
pub mod Goroutines
pub mod Racing
pub mod Checking
pub mod Keeping
use ukfaas.Prelude.{
  ℕ, zero, suc, ◌-◌, ◌≡◌, Bool, true, false, Option, none, some, List, [], ◌∷◌, ◌++◌,
}
use ukfaas.Prelude.Lists.{ltb, if◌then◌else◌}
use ukfaas.Prelude.Text.{Text, text}
use ukfaas.Prelude.Map.{Map}
use ukfaas.Prelude.Exec.{Outcome, ok, err, panic, blocked, Exec, ◌>>=◌, ◌>>◌, pure, gets, lift}
use ukfaas.Network.Api.{NetworkController}
use ukfaas.Machines.Platform.{Machine, is_running, Host}
use ukfaas.Machines.{MachineStore, outer, ask, get_replicas}
use ukfaas.Machines.Launch.{clone_machine}
use ukfaas.Machines.Remove.{destroy_machine, delete_machine}

module _ (H : Host) (N : NetworkController) where
  abbrev Store : Type 0
  Store = MachineStore H N

  no_error : Option Text → Outcome (Unit {0})
  no_error none = ok tt
  no_error (some e) = err e

  supported_or : Bool → Text → Outcome (Unit {0})
  supported_or true platform = ok tt
  supported_or false platform = err (text "platform " ++ (platform ++ text " not supported"))

  -- One goroutine waits for a lock for ever, and so does the `wg.Wait()`, unless another panics.
  still_waiting : Outcome (Unit {0}) × Store → Outcome (Unit {0}) × Store
  still_waiting (panic, s) = (panic, s)
  still_waiting (_, s) = (blocked, s)

  -- One goroutine, and those after it: its error is only logged, and its panic ends the program.
  then_others : Outcome (Unit {0}) → Exec Store (Unit {0}) → Exec Store (Unit {0})
  unfolding still_waiting
  then_others (ok _) rest s = rest s
  then_others (err e) rest s = rest s
  then_others panic rest s = (panic, s)
  then_others blocked rest s = still_waiting (rest s)

  unfoldable pub spawn : ℕ → Exec Store (Unit {0}) → Exec Store (Unit {0})
  unfolding then_others still_waiting
  spawn zero m s = (ok tt, s)
  spawn (suc n) m s = then_others (m s).0 (spawn n m) (m s).1

  -- What runs under `healthChecklock`: the deferred call releases it, unless the call waits for ever.
  released : Outcome (Unit {0}) × Store → Outcome (Unit {0}) × Store
  released (blocked, s) = (blocked, s)
  released (o, s) = (o, record s { health_check_lock = false })

  -- A call between `healthChecklock.Lock()`, which waits if the lock is held, and its release.
  exclusively : Exec Store (Unit {0}) → Exec Store (Unit {0})
  unfolding released
  exclusively m s =
      if s.health_check_lock
      then (blocked, s)
      else released (m (record s { health_check_lock = true }))

  -- `ScaleMachinesTo` under the lock.
  unfoldable pub scale_locked : Text → ℕ → Exec Store (Unit {0})
  scale_locked service replicas s =
      let curr = get_replicas H N service s in
      if ltb curr replicas
      then spawn (replicas - curr) (clone_machine H N service) s
      else if ltb replicas curr
      then spawn (curr - replicas) (delete_machine H N service) s
      else (ok tt, s)

  unfoldable pub scale_machines_to : Text → ℕ → Exec Store (Unit {0})
  unfolding exclusively released
  scale_machines_to service replicas = exclusively (scale_locked service replicas)

  unfoldable pub stop_all_machines : Text → Exec Store (Unit {0})
  stop_all_machines service = scale_machines_to service 0

  checked : Machine → Exec Store (Unit {0})
  checked new s =
      if is_running new.state
      then (ok tt, s)
      else then_others (destroy_machine H N new s).0 (pure tt) (destroy_machine H N new s).1

  -- The outcome of `Get`: an error is logged.
  got : Outcome Machine → Exec Store (Unit {0})
  unfolding checked
  got (ok new) s = checked new s
  got (err e) s = (ok tt, s)
  got panic s = (panic, s)
  got blocked s = (blocked, s)

  -- A visit under the lock.
  look : Machine → Exec Store (Unit {0})
  unfolding got
  look m s =
      let (r, w) = H.get m s.world in
      if is_running m.state then got r (record s { world = w }) else (ok tt, s)

  -- One visit of the range, which goes on after an error.
  check_machine : Machine → Exec Store (Unit {0})
  unfolding look exclusively
  check_machine m = exclusively (look m)

  -- One round of `RunHealthChecks`, over the machines that the range visits.
  unfoldable pub run_health_checks : List Machine → Exec Store (Unit {0})
  unfolding check_machine then_others still_waiting
  run_health_checks [] = pure tt
  run_health_checks (m ∷ ms) = check_machine m >> run_health_checks ms

  -- What the checks ask with: the platform, and its controller of machines.
  health_controller : Exec Store (Unit {0})
  health_controller = do
    (platform, e) ← ask H N (λ w. let (p, e, w') = H.detect w in ((p, e), w'))
    lift (no_error e)
    lift (supported_or (H.supported platform) platform)
    outer H N (H.new_machine_controller platform)

  rounds : List (List Machine) → Exec Store (Unit {0})
  rounds [] = pure tt
  rounds (visited ∷ rest) = run_health_checks visited >> rounds rest

  -- `RunHealthChecks` until its context is cancelled, with the machines that each round visits.
  unfoldable pub watch_health : List (List Machine) → Exec Store (Unit {0})
  unfolding health_controller rounds no_error supported_or
  watch_health visits = health_controller >> rounds visits
