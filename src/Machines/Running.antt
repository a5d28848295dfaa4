-- ===== src/Machines/Running.antt =====
-- The operations of the machine store, one after another in any order, as the handlers, the health
-- checks and the pollers call them.
pub mod Keeping
use ukfaas.Prelude.{ℕ, List, [], ◌∷◌}
use ukfaas.Prelude.Text.{Text}
use ukfaas.Prelude.Exec.{Exec}
use ukfaas.Network.Api.{NetworkController}
use ukfaas.Machines.Platform.{Machine, Host}
use ukfaas.Machines.{MachineRequest, MachineStore}
use ukfaas.Machines.Create.{create_machine, watchdog_answers}
use ukfaas.Machines.Launch.{clone_machine}
use ukfaas.Machines.Remove.{delete_machine}
use ukfaas.Machines.Scale.{scale_machines_to, watch_health}

-- `check` is a run of the health checks, by the machines that each round visits, and `poll` the end of
-- the poller at a place of the list.
pub data Operation : Type 0 where
  create : MachineRequest → Operation
  clone delete : Text → Operation
  scale : Text → ℕ → Operation
  check : List (List Machine) → Operation
  poll : ℕ → Operation

module _ (H : Host) (N : NetworkController) where
  unfoldable pub perform : Operation → Exec (MachineStore H N) (Unit {0})
  perform (create mreq) = create_machine H N mreq
  perform (clone service) = clone_machine H N service
  perform (delete service) = delete_machine H N service
  perform (scale service replicas) = scale_machines_to H N service replicas
  perform (check visits) = watch_health H N visits
  perform (poll i) = watchdog_answers H N i

  -- The store after them, whatever each returns.
  unfoldable pub run : List Operation → MachineStore H N → MachineStore H N
  run [] s = s
  run (o ∷ os) s = run os (perform o s).1
