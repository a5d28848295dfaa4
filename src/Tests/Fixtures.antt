-- ===== src/Tests/Fixtures.antt =====
-- A registry that has one image, a host on which every call succeeds, and small states.
use ukfaas.Prelude.{◌≡◌, refl, ap, sym, true, false, none, some, [], ◌∷◌, ◌++◌, arith}
use ukfaas.Prelude.Lists.{if◌then◌else◌}
use ukfaas.Prelude.Text.{Text, text, ◌==◌, text_eq}
use ukfaas.Prelude.Map.{load}
use ukfaas.Prelude.Exec.{ok, err}
use ukfaas.Network.Api.{NetworkController, internal}
use ukfaas.Network.Balancer.{Balancer, new_random_load_balancer}
use ukfaas.Network.Balancer.Laws.{IsSized}
use ukfaas.Network.Controller.{Controller, Env, ip}
use ukfaas.Network.Controller.Counts.{IsCounted}
use ukfaas.Functions.{FunctionDeployment, Target, Registry, FunctionMetaData, FunctionStore}
use ukfaas.Machines.Platform.{MachineState, Machine, Iface, Answer, Host, is_running}
use ukfaas.Machines.{MachineRequest, MachineStore}
use ukfaas.Machines.Counting.{IsKeyed}
use ukfaas.Machines.Remove.Removing.{StopsMachines}
use ukfaas.Handlers.Namespaces.{Labeller}
use ukfaas.Handlers.Requests.{Files, Server}

-- Every machine answers, the numbers drawn are those of the questions, and nothing is cancelled.
abbrev pub env : Env
env = record {
  status = λ t url. some 200;
  draw = λ t. t;
  parses = λ url. true;
  cancelled = λ t. false;
}

abbrev pub a : Text
a = text "10.0.0.2"

abbrev pub b : Text
b = text "10.0.0.3"

abbrev pub c : Text
c = text "10.0.0.4"

abbrev pub pair : Balancer
pair = record { size = 2; ips = a ∷ b ∷ [] }

pub pair-IsSized : IsSized pair
pair-IsSized = record { counted = refl; small = omega arith }

abbrev pub controller : Controller
controller = record {
  instance_count = 2;
  health_check_table = (ip a, true) ∷ (ip b, true) ∷ [];
  instances_map = (text "f", pair) ∷ [];
  default_load_balancer = some new_random_load_balancer;
  events = 0;
}

pub controller-IsCounted : IsCounted controller
unfolding load
controller-IsCounted = record {
  sized = (pair-IsSized, tt);
  nodup = (refl, tt);
  counted = refl;
  small = omega arith;
  constructor = refl;
}

-- The same controller after checks that found no machine in health.
abbrev pub ill : Controller
ill = record controller { health_check_table = (ip a, false) ∷ [] }

pub ill-IsCounted : IsCounted ill
unfolding load
ill-IsCounted = record {
  sized = (pair-IsSized, tt);
  nodup = (refl, tt);
  counted = refl;
  small = omega arith;
  constructor = refl;
}

abbrev pub empty : Controller
empty = record {
  instance_count = 0;
  health_check_table = [];
  instances_map = [];
  default_load_balancer = some new_random_load_balancer;
  events = 0;
}

abbrev pub target : Target
target = record {
  architecture = text "x86_64";
  platform = text "qemu";
  kernel = text "/kernel";
  format = text "oci";
}

abbrev pub registry : Registry
registry = record {
  Package = Text;
  World = Unit {0};
  parse_reference = λ image. ok image;
  list_manifests = λ w. (
    ok (
        record {
          annotations =
              (text "org.unikraft.image.name", text "f")
              ∷ (text "org.unikraft.image.version", text "1")
              ∷ [];
          config_digest = text "sha256:1234";
        }
        ∷ []),
    w,
  );
  new_package = λ ref m w. (some ref, none, w);
  pull = λ p dir platform w. (ok tt, w);
  as_target = λ p. some target;
  detect = λ w. (ok (text "qemu"), w);
  mkdir_all = λ dir w. (ok tt, w);
  join = λ x y. x ++ (text "/" ++ y);
  now = λ w. (7, w);
}

abbrev pub request : FunctionDeployment
request = record {
  service = text "f";
  image = text "f:1";
  namespace = [];
  env_process = [];
  env_vars = [];
  constraints = [];
  secrets = [];
  labels = none;
  annotations = none;
  limits = none;
  requests = none;
}

abbrev pub meta : FunctionMetaData registry
meta = record { created_at = 7; deployment = request; pack = text "f:1"; storage_dir = text "/d" }

abbrev pub no_functions : FunctionStore registry
no_functions = record { image_store = []; function_meta_data_map = []; dirs = []; world = tt }

abbrev pub one_function : FunctionStore registry
one_function = record no_functions { function_meta_data_map = (text "f", meta) ∷ [] }

abbrev pub stopping : Machine → Unit {0} → Answer × Unit {0}
stopping m w =
    (record { machine = some (record m { state = MachineState.exited }); error = none }, w)

abbrev pub running : Machine → Unit {0} → Answer × Unit {0}
running m w =
    (record { machine = some (record m { state = MachineState.running }); error = none }, w)

abbrev pub host : Host
host = record {
  World = Unit {0};
  new_uuid = λ w. (text "u2", w);
  random_name = λ w. (text "jolly", w);
  join = λ x y. x ++ (text "/" ++ y);
  mkdir_all = λ dir w. (ok tt, w);
  exists = λ path w. (false, w);
  copy_directory = λ x y w. (ok tt, w);
  new_volume_service = λ w. (ok tt, w);
  create_volume = λ v w. (ok v, w);
  new_network_service = λ w. (true, w);
  get_network = λ name w. (ok [], w);
  update_network = λ ifaces w. (ok ifaces, w);
  detect = λ w. (text "qemu", none, w);
  supported = λ platform. true;
  new_machine_controller = λ platform w. (ok tt, w);
  create = running;
  start = running;
  stop = stopping;
  get = λ m w. (ok m, w);
  link_by_name = λ name w. (err (text "no link"), w);
  link_set_down = λ name w. (ok tt, w);
  link_del = λ name w. (ok tt, w);
}

some-injective {ℓ} : {A : Type ℓ} {x y : A} → some x ≡ some y → x ≡ y
some-injective e = cc

pub host-StopsMachines : StopsMachines host
unfolding is_running
host-StopsMachines = record {
  same_uid = λ m m' w e. ap (λ (x : Machine). x.uid) (sym (some-injective e));
  stopped = λ m m' w e. ap (λ (x : Machine). is_running x.state) (sym (some-injective e));
}

abbrev pub network : NetworkController
network = internal env

abbrev pub machine : Machine
machine = record {
  uid = text "u1";
  name = text "calm";
  state_dir = text "/tmp/kraftkit/machines/u1";
  annotations = none;
  labels = some 0;
  architecture = text "x86_64";
  platform = text "qemu";
  kernel = text "oci://f:1";
  kernel_path = text "/kernel";
  memory = none;
  volumes = [];
  networks = [];
  state = MachineState.running;
}

abbrev pub iface : Iface
iface = record { uid = text "u1"; if_name = text "openfaas0@if-u1-long"; addr = a }

abbrev pub no_machines : MachineStore host network
no_machines = record {
  lock = false;
  health_check_lock = false;
  machine_instance_map = [];
  machine_network_map = [];
  network = controller;
  maps = ((text "ukfaas.io/service", text "f") ∷ []) ∷ [];
  dirs = [];
  waiting = [];
  world = tt;
}

abbrev pub one_machine : MachineStore host network
one_machine = record no_machines {
  machine_instance_map = (text "u1", machine) ∷ [];
  machine_network_map = (text "u1", iface) ∷ [];
}

pub one_machine-IsKeyed : IsKeyed one_machine.machine_instance_map
unfolding load
one_machine-IsKeyed = (refl, refl, tt)

abbrev pub machine_request : MachineRequest
machine_request = record {
  service = text "f";
  image = text "f:1";
  namespace = [];
  architecture = text "x86_64";
  platform = text "qemu";
  kernel = text "oci://f:1";
  kernel_path = text "/kernel";
  storage_path = text "/d/unikraft/fs0";
  annotations = none;
  labels = none;
}

-- One namespace of each kind.
abbrev pub labeller : Labeller
labeller = record {
  list = ok (text "dev" ∷ text "other" ∷ []);
  labels = λ n. if n == text "dev" then ok ((text "openfaas", text "false") ∷ []) else ok [];
}

abbrev pub files : Files
files = record { join = λ x y. x ++ (text "/" ++ y); stat = λ path. true }

abbrev pub server : Server registry host network
server = record { functions = one_function; machines = one_machine }
