-- ===== src/Tests/Machines.antt =====
-- The machine store at concrete inputs.
use ukfaas.Prelude.{
  List, ◌∷◌, ◌-◌, ◌≤◌, ◌≡◌, ◌≢◌, refl, ◌⊎◌, true, false, false, none, some, [], ◌++◌, arith,
}
use ukfaas.Prelude.Lists.{length, if◌then◌else◌}
use ukfaas.Prelude.Text.{Text, text, ◌==◌, text_eq}
use ukfaas.Prelude.Map.{store, remove, load}
use ukfaas.Prelude.Exec.{ok, err, panic, blocked}
use ukfaas.Network.Balancer.{delete_instance, copy_others}
use ukfaas.Network.Controller.{key_eq, delete_service_ip}
use ukfaas.Machines.Platform.{Machine, MachineState, Host, is_running}
use ukfaas.Machines.{
  new_machine_store, first_serving, MachineStore, map_at, read_map, service_of, serves,
  count_serving, get_replicas, get_function_machine, get_machines_for_function,
}
use ukfaas.Machines.Counting.{IsKeyed, get_function_machine_lem}
use ukfaas.Machines.Create.{
  prepare, critical, acquire, release, held, attach, describe, launch, finish, cleaning,
  create_machine,
}
use ukfaas.Machines.Create.Frames.{locked_entries}
use ukfaas.Machines.Create.Creating.{Created, create_machine-Created}
use ukfaas.Machines.Create.Callers.{
  Call, clone, creation, Creating, failed_inside, starting, begun, run as run_calls,
}
use ukfaas.Machines.Create.Interleaving.{holders, run-IsExclusive}
use ukfaas.Machines.Create.Stuck.{IsStuck, run-IsStuck}
use ukfaas.Machines.Running.{Operation, check, scale, run as run_operations}
use ukfaas.Machines.Running.Keeping.{IsSound, run-IsSound}
use ukfaas.Machines.Launch.{clone_machine, clone_request}
use ukfaas.Machines.Remove.{destroy_machine, stop_machine, delete_machine}
use ukfaas.Machines.Remove.Replicas.{Shrunk, delete_machine_lem}
use ukfaas.Machines.Scale.{run_health_checks, spawn, scale_locked, scale_machines_to}
use ukfaas.Machines.Scale.Goroutines.{spawned, run, step, advance_at, advance}
use ukfaas.Machines.Remove.Removing.{machines}
use ukfaas.Machines.Scale.Racing.{run-spawned}
use ukfaas.Machines.Scale.Scaling.{
  IsAt, Waits, NoError, scale_machines_to_down, scale_machines_to_lem, scale_machines_to_locked,
}
use ukfaas.Tests.Fixtures.{
  host, host-StopsMachines, network, no_machines, one_machine, one_machine-IsKeyed, machine, iface,
  controller, machine_request,
}

create_machine-Created_example :
    Created host network no_machines (create_machine host network machine_request no_machines)
create_machine-Created_example =
    create_machine-Created host network machine_request no_machines refl

-- A host whose bridge cannot be updated.
abbrev broken : Host
broken = record host { update_network = λ ifaces w. (err (text "no bridge"), w) }

abbrev idle : MachineStore broken network
idle = record {
  lock = false;
  health_check_lock = false;
  machine_instance_map = [];
  machine_network_map = [];
  network = no_machines.network;
  maps = [];
  dirs = [];
  waiting = [];
  world = tt;
}

-- What is ready when the call takes the lock.
abbrev ready : Machine
ready = record {
  uid = text "u2";
  name = [];
  state_dir = text "/tmp/kraftkit/machines/u2";
  annotations = none;
  labels = none;
  architecture = text "x86_64";
  platform = text "qemu";
  kernel = text "oci://f:1";
  kernel_path = text "/kernel";
  memory = none;
  volumes = [];
  networks = [];
  state = MachineState.unknown;
}

abbrev two_calls : List Call
two_calls = creation machine_request ∷ clone (text "f") ∷ []

run-IsExclusive_example :
    let c =
      run_calls host network (0 ∷ 1 ∷ 0 ∷ 1 ∷ []) (begun host network two_calls no_machines) in
    (holders c.callers ≤ 1) × (holders c.callers ≡ (if c.machines.lock then 1 else 0))
run-IsExclusive_example =
    run-IsExclusive host network two_calls (0 ∷ 1 ∷ 0 ∷ 1 ∷ []) no_machines refl

-- One call has failed under the lock, and one is to come.
abbrev after_failure : Creating broken network
after_failure = record {
  machines = record idle { lock = true };
  callers = failed_inside ∷ starting machine_request ∷ [];
}

failed_under_lock :
    (held broken network machine_request (ready, []) (record idle { lock = true })).0
    ≡ err (text "no bridge")
unfolding held attach cleaning
failed_under_lock = refl

run-IsStuck_example :
    IsStuck broken network (run_calls broken network (1 ∷ 1 ∷ []) after_failure)
    × (locked_entries broken network (run_calls broken network (1 ∷ 1 ∷ []) after_failure).machines
        ≡ locked_entries broken network after_failure.machines)
run-IsStuck_example = run-IsStuck broken network (1 ∷ 1 ∷ []) after_failure (refl, (tt, (tt, tt)))

-- A `Create` that returns neither a machine nor an error: the call panics once the lock is free.
abbrev nil_host : Host
nil_host = record host { create = λ m w. (record { machine = none; error = none }, w) }

nil_machine :
    let (o, s) =
      create_machine nil_host network machine_request
        (new_machine_store nil_host network controller tt) in
    (o ≡ panic) × (s.lock ≡ false)
unfolding create_machine prepare critical acquire held attach describe launch release finish
    cleaning new_machine_store
nil_machine = (refl, refl)

get_function_machine_lem_example :
    ((get_replicas host network (text "f") one_machine ≡ 0)
        × ((get_function_machine host network (text "f") one_machine).0
            ≡ err (text "function " ++ (text "f" ++ text " not found")))
      ⊎ (get_replicas host network (text "f") one_machine ≢ 0)
        × ((m : Machine) × ((get_function_machine host network (text "f") one_machine).0 ≡ ok m)
            × (serves (text "f") one_machine.maps m ≡ true)
            × (load m.uid one_machine.machine_instance_map ≡ some m)))
    × (get_replicas host network (text "f") one_machine
        ≤ length (get_machines_for_function host network (text "f") one_machine))
get_function_machine_lem_example =
    get_function_machine_lem host network (text "f") one_machine one_machine-IsKeyed

one_replica : get_replicas host network (text "f") one_machine ≡ 1
unfolding get_replicas count_serving serves service_of read_map map_at load text_eq is_running
one_replica = refl

delete_machine_lem_example :
    Shrunk host network
      (text "f")
      one_machine
      (delete_machine host network (text "f") one_machine).1
delete_machine_lem_example =
    delete_machine_lem host network (text "f") host-StopsMachines one_machine one_machine-IsKeyed
      (omega (arith, one_replica))

scale_machines_to_down_example :
    Waits host network one_machine (scale_machines_to host network (text "f") 0 one_machine)
    ⊎ ((one_machine.health_check_lock ≡ false)
        × (((scale_machines_to host network (text "f") 0 one_machine).0 ≡ panic)
            ⊎ IsAt host network
                (text "f")
                0
                one_machine.maps
                (scale_machines_to host network (text "f") 0 one_machine).1))
scale_machines_to_down_example =
    scale_machines_to_down host network host-StopsMachines (text "f") 0 one_machine
      one_machine-IsKeyed (omega arith)

-- While the lock of the health checks is held, scaling waits and changes nothing.
waits_on :
    scale_machines_to host network (text "f") 0 (record one_machine { health_check_lock = true })
    ≡ (blocked, record one_machine { health_check_lock = true })
unfolding scale_machines_to
waits_on = refl

-- With the lock of `createMachine` held, scaling up waits for ever, and so does every scaling and
-- every visit of the health checks after it.
stalled :
    let s = (scale_machines_to host network (text "f") 2 (record one_machine { lock = true })).1 in
    (s.health_check_lock ≡ true)
    × ((scale_machines_to host network (text "f") 0 s).0 ≡ blocked)
    × ((run_health_checks host network (machine ∷ []) s).0 ≡ blocked)
unfolding scale_machines_to scale_locked spawn clone_machine create_machine prepare critical acquire
    get_function_machine first_serving get_replicas count_serving serves service_of read_map map_at
    load text_eq is_running clone_request run_health_checks
stalled = (refl, refl, refl)

scale_machines_to_lem_example :
    NoError host network (scale_machines_to host network (text "f") 3 no_machines).0
    × ((get_replicas host network (text "f") no_machines ≢ 0)
        ⊎ (scale_machines_to host network (text "f") 3 no_machines
            ≡ ((if no_machines.health_check_lock then blocked else ok tt), no_machines)))
scale_machines_to_lem_example = scale_machines_to_lem host network (text "f") 3 no_machines

abbrev locked : MachineStore host network
locked = record one_machine { lock = true }

scale_machines_to_locked_example :
    ((scale_machines_to host network (text "f") 3 locked).0 ≡ panic)
    ⊎ (locked_entries host network (scale_machines_to host network (text "f") 3 locked).1
        ≡ locked_entries host network locked)
unfolding get_replicas count_serving serves service_of read_map map_at load text_eq is_running
scale_machines_to_locked_example =
    scale_machines_to_locked host network (text "f") 3 locked refl (omega arith)

-- Two machines, and two goroutines that both find the first one: a replica is left over.
abbrev two_machines : MachineStore host network
two_machines = record one_machine {
  machine_instance_map =
      (text "u1", machine) ∷ (text "u3", record machine { uid = text "u3" }) ∷ [];
}

two_machines-IsKeyed : IsKeyed two_machines.machine_instance_map
unfolding load text_eq
two_machines-IsKeyed = (refl, refl, (refl, refl, tt))

run-spawned_example :
    let c =
      run host network (text "f") (0 ∷ 1 ∷ 0 ∷ 1 ∷ 0 ∷ 1 ∷ []) (
        spawned host network
          (get_replicas host network (text "f") two_machines - 0)
          two_machines) in
    (0 ≤ get_replicas host network (text "f") c.machines)
    × IsKeyed c.machines.machine_instance_map
    × (c.machines.maps ≡ two_machines.maps)
run-spawned_example =
    run-spawned host network (text "f") host-StopsMachines 0 (0 ∷ 1 ∷ 0 ∷ 1 ∷ 0 ∷ 1 ∷ [])
      two_machines two_machines-IsKeyed (omega arith)

-- A replica is left after that run, and the second removal of the one address has panicked.
race_leaves_one :
    get_replicas host network
      (text "f")
      (run host network
        (text "f")
        (0 ∷ 1 ∷ 0 ∷ 1 ∷ 0 ∷ 1 ∷ [])
        (spawned host network 2 two_machines)).machines
    ≡ 1
unfolding run step advance_at advance spawned destroy_machine stop_machine delete_service_ip
    delete_instance copy_others get_function_machine first_serving get_replicas count_serving serves
    service_of read_map map_at load store remove text_eq key_eq is_running
race_leaves_one = refl

race_panics :
    (run host network
      (text "f")
      (0 ∷ 1 ∷ 0 ∷ 1 ∷ 0 ∷ 1 ∷ [])
      (spawned host network 2 two_machines)).crashed
    ≡ true
unfolding run step advance_at advance spawned destroy_machine stop_machine delete_service_ip
    delete_instance copy_others get_function_machine first_serving get_replicas count_serving serves
    service_of read_map map_at load store remove text_eq key_eq is_running
race_panics = refl

-- What `Get` says of a machine's state, by its id.
reported : Text → MachineState
reported uid = if uid == text "u1" then MachineState.running else MachineState.exited

abbrev reporting : Host
reporting = record host { get = λ m w. (ok (record m { state = reported m.uid }), w) }

-- A second machine, of which `Get` says that it has exited.
abbrev dead : Machine
dead = record machine { uid = text "u3" }

abbrev one_dead : MachineStore reporting network
one_dead = record {
  lock = false;
  health_check_lock = false;
  machine_instance_map = (text "u1", machine) ∷ (text "u3", dead) ∷ [];
  machine_network_map = (text "u1", iface) ∷ (text "u3", iface) ∷ [];
  network = controller;
  maps = one_machine.maps;
  dirs = [];
  waiting = [];
  world = tt;
}

-- A machine is cloned, a round of the checks is done, and the service is scaled down.
abbrev calls : List Operation
calls = Operation.clone (text "f") ∷ check ((machine ∷ []) ∷ []) ∷ scale (text "f") 0 ∷ []

one_machine-IsSound : IsSound host network one_machine
unfolding load
one_machine-IsSound = (one_machine-IsKeyed, λ uid e. ground arith)

run-IsSound_example : IsSound host network (run_operations host network calls one_machine)
run-IsSound_example =
    run-IsSound host network host-StopsMachines calls one_machine one_machine-IsSound
