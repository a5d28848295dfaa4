-- ===== src/Machines/Create/Callers.antt =====
-- Calls of `CloneMachine` and `createMachine` that run beside one another, as the goroutines of
-- `ScaleMachinesTo` and the handlers make them, in any order of their steps: a clone looks for a
-- machine of its service; a call prepares its machine, waits for the lock, launches the machine under
-- it, releases it, and enters the machine.
use ukfaas.Prelude.{ℕ, Option, none, some, List, [], ◌∷◌, map}
use ukfaas.Prelude.Lists.{get_elem?, set}
use ukfaas.Prelude.Text.{Text}
use ukfaas.Prelude.Exec.{Outcome, ok}
use ukfaas.Network.Api.{NetworkController}
use ukfaas.Machines.Platform.{Machine, Iface, Host}
use ukfaas.Machines.{MachineRequest, MachineStore, Maps, get_function_machine}
use ukfaas.Machines.Launch.{clone_request}
use ukfaas.Machines.Create.{prepare, acquire, held, release, finish}

-- Where a call stands. `inside` and `leaving` hold the lock; `failed_inside` has returned an error, or panicked,
-- between `Lock` and `Unlock`, and `launched` stands behind `Unlock`.
pub data Caller : Type 0 where
  cloning : Text → Caller
  starting : MachineRequest → Caller
  prepared inside : MachineRequest → Machine × Text → Caller
  leaving launched : MachineRequest → Option Machine × Iface → Caller
  failed_inside ended : Caller

module _ (H : Host) (N : NetworkController) where
  -- A panic of a handler is recovered by net/http, and the others go on; one of a goroutine ends the
  -- program, and with it the schedule.
  pub record Creating : Type 0 where
    pub machines : MachineStore H N
    pub callers : List Caller

  unfoldable pub after_search : Maps → Outcome Machine → Caller
  after_search maps (ok m) = starting (clone_request maps m)
  after_search maps _ = ended

  unfoldable pub after_prepare : MachineRequest → Outcome (Machine × Text) → Caller
  after_prepare mreq (ok p) = prepared mreq p
  after_prepare mreq _ = ended

  -- A lock that is held lets the call wait where it stands.
  unfoldable pub after_acquire : MachineRequest → Machine × Text → Outcome (Unit {0}) → Caller
  after_acquire mreq p (ok u) = inside mreq p
  after_acquire mreq p _ = prepared mreq p

  unfoldable pub after_held : MachineRequest → Outcome (Option Machine × Iface) → Caller
  after_held mreq (ok l) = leaving mreq l
  after_held mreq _ = failed_inside

  -- One step of one call.
  unfoldable pub advance : Caller → MachineStore H N → Caller × MachineStore H N
  unfolding after_search after_prepare after_acquire after_held
  advance (cloning service) s = (after_search s.maps (get_function_machine H N service s).0, s)
  advance (starting mreq) s = let (o, s') = prepare H N mreq s in (after_prepare mreq o, s')
  advance (prepared mreq p) s = let (o, s') = acquire H N s in (after_acquire mreq p o, s')
  advance (inside mreq p) s = let (o, s') = held H N mreq p s in (after_held mreq o, s')
  advance (leaving mreq l) s = (launched mreq l, (release H N s).1)
  advance (launched mreq l) s = (ended, (finish H N mreq l s).1)
  advance failed_inside s = (failed_inside, s)
  advance ended s = (ended, s)

  unfoldable pub advance_at : ℕ → Option Caller → Creating → Creating
  advance_at i none c = c
  advance_at i (some g) c =
      let (g', s) = advance g c.machines in record { machines = s; callers = set c.callers i g' }

  unfoldable pub step : ℕ → Creating → Creating
  step i c = advance_at i (get_elem? c.callers i) c

  -- A run by a schedule, the list of the calls that take a step, in order.
  unfoldable pub run : List ℕ → Creating → Creating
  run [] c = c
  run (i ∷ schedule) c = run schedule (step i c)

-- What a goroutine or a handler calls.
pub data Call : Type 0 where
  creation : MachineRequest → Call
  clone : Text → Call

beginning : Call → Caller
beginning (creation mreq) = starting mreq
beginning (clone service) = cloning service

-- Calls that have not yet begun.
unfoldable pub begun :
    (H : Host) (N : NetworkController) → List Call → MachineStore H N → Creating H N
unfolding beginning
begun H N calls s = record { machines = s; callers = map beginning calls }
