-- ===== src/Machines/Scale/Goroutines.antt =====
-- The goroutines with which `ScaleMachinesTo` scales down, in any order of their steps: each looks for
-- a machine, marks it, and destroys it, and others may run between two of these.
use ukfaas.Prelude.{ℕ, Bool, true, false, Option, none, some, List, [], ◌∷◌}
use ukfaas.Prelude.Lists.{if◌then◌else◌, get_elem?, set, replicate}
use ukfaas.Prelude.Text.{Text, text_eq}
use ukfaas.Prelude.Map.{store}
use ukfaas.Prelude.Exec.{Outcome, ok, panic, blocked}
use ukfaas.Network.Api.{NetworkController}
use ukfaas.Machines.Platform.{Machine, MachineState, Host}
use ukfaas.Machines.{MachineStore, get_function_machine}
use ukfaas.Machines.Remove.{destroy_machine}

-- Where a goroutine stands; `waiting` is for a lock that is never released.
pub data Goroutine : Type 0 where
  starting : Goroutine
  picked marked : Machine → Goroutine
  waiting ended : Goroutine

module _ (H : Host) (N : NetworkController) where
  -- A panic of a goroutine ends the program.
  pub record Scaling : Type 0 where
    pub machines : MachineStore H N
    pub goroutines : List Goroutine
    pub crashed : Bool

  unfoldable pub after_search : Outcome Machine → Goroutine
  after_search (ok m) = picked m
  after_search _ = ended

  unfoldable pub after_destroy : Outcome (Unit {0}) → Goroutine
  after_destroy blocked = waiting
  after_destroy _ = ended

  unfoldable pub is_panic : Outcome (Unit {0}) → Bool
  is_panic panic = true
  is_panic _ = false

  -- One step of one goroutine: where it stands then, whether it panicked, and the store.
  unfoldable pub advance : Text → Goroutine → MachineStore H N → Goroutine × Bool × MachineStore H N
  unfolding after_search after_destroy is_panic
  advance service starting s = (after_search (get_function_machine H N service s).0, false, s)
  advance service (picked m) s =
      let m' : Machine = record m { state = MachineState.unknown } in
      (marked m', false, record s { machine_instance_map = store m'.uid m' s.machine_instance_map })
  advance service (marked m) s =
      let (o, s') = destroy_machine H N m s in (after_destroy o, is_panic o, s')
  advance service waiting s = (waiting, false, s)
  advance service ended s = (ended, false, s)

  unfoldable pub advance_at : Text → ℕ → Option Goroutine → Scaling → Scaling
  advance_at service i none c = c
  advance_at service i (some g) c =
      let (g', crash, s) = advance service g c.machines in
      record { machines = s; goroutines = set c.goroutines i g'; crashed = crash }

  unfoldable pub step : Text → ℕ → Scaling → Scaling
  step service i c = if c.crashed then c else advance_at service i (get_elem? c.goroutines i) c

  -- A run by a schedule, the list of the goroutines that take a step, in order.
  unfoldable pub run : Text → List ℕ → Scaling → Scaling
  run service [] c = c
  run service (i ∷ schedule) c = run service schedule (step service i c)

  -- `n` goroutines that have not yet looked for a machine.
  unfoldable pub spawned : ℕ → MachineStore H N → Scaling
  spawned n s = record { machines = s; goroutines = replicate n starting; crashed = false }
