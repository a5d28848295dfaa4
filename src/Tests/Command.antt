-- ===== src/Tests/Command.antt =====
-- The commands at concrete inputs: an install, the ports of two services, and the start of the provider.
use ukfaas.Prelude.{ℕ_discrete, ◌≡◌, ◌≢◌, ◌⊎◌, refl, true, false, none, some, List, [], ◌∷◌, arith}
use ukfaas.Prelude.Text.{Text, text, ◌==◌, text_eq}
use ukfaas.Prelude.Map.{load, store}
use ukfaas.Prelude.Exec.{ok, err}
use ukfaas.Prelude.Integer.{decimal}
use ukfaas.Network.Manager.{network_controllers, get_network_controller}
use ukfaas.Command.{print_version}
use ukfaas.Command.Disk.{File, Disk, join, stat, write_file, mkdir_all, open_file}
use ukfaas.Command.Install.{System, Target, ukfaas_wd, secrets, run_install, bin_exists}
use ukfaas.Command.Install.Keeping.{run_install-Holds}
use ukfaas.Command.Install.Ordering.{Installed, run_install-Installed, actions}
use ukfaas.Command.Up.{nat_eq, Service, Faasd, allocate, run_up}
use ukfaas.Command.Up.Running.{idle, Serves, Abandons, run_up-started}
use ukfaas.Command.Provider.{Surroundings, Provider, written, provider_of, start_provider}
use ukfaas.Command.Provider.Serving.{start_provider-IsSound}
use ukfaas.Network.Api.{internal}
use ukfaas.Network.Balancer.{new_random_load_balancer}
use ukfaas.Network.Controller.{blank, new_internal_network_controller}
use ukfaas.Functions.Targets
use ukfaas.Functions.Targets.{HasTargets}
use ukfaas.Functions.Opening.{new_function_store}
use ukfaas.Machines.{new_machine_store}
use ukfaas.Machines.Running.{clone, scale, check, run}
use ukfaas.Machines.Running.Keeping.{IsSound}
use ukfaas.Tests.Fixtures.{
  env, registry, host, host-StopsMachines, no_machines, no_functions, request,
}
use ukfaas.Tests.Caddy.{gateway}

-- Nothing is refused.
abbrev system : System
system = record {
  refuses = λ n. none;
  systemd = λ n a. ok tt;
  generate = λ length digits symbols no_upper repeat. ok (text "secret");
}

-- Systemd refuses the third action, and a write leaves half of a file.
abbrev failing : System
failing = record system {
  refuses = λ n. some (record { note = text "no space left"; left = some (text "se") });
}

abbrev source : Text → File
source content = record { content = content; mode = 420 }

abbrev machine_disk : Disk
machine_disk = record {
  files =
      (text "docker-compose.yaml", source (text "services"))
      ∷ (text "prometheus.yml", source (text "scrape"))
      ∷ (text "resolv.conf", source (text "nameserver"))
      ∷ (text "/usr/local/bin/ukfaasd", source (text "program"))
      ∷ [];
  dirs = [];
  calls = 0;
}

abbrev target_machine : Target
target_machine = record { disk = machine_disk; performed = [] }

-- A machine on which an install has been before.
abbrev password : Text
password = join secrets (text "basic-auth-password")

abbrev installed_machine : Target
installed_machine = record target_machine {
  disk = record machine_disk { files = (password, source (text "old")) ∷ machine_disk.files };
}

other_path : (p q : Text) → (p == q) ≡ false → p ≢ q
other_path p q h = ground arith

abbrev compose : Text
compose = join ukfaas_wd (text "docker-compose.yaml")

abbrev metrics : Text
metrics = join ukfaas_wd (text "prometheus.yml")

abbrev resolver : Text
resolver = join ukfaas_wd (text "resolv.conf")

run_install-Holds_example :
    load password (run_install failing installed_machine).1.disk.files ≡ some (source (text "old"))
unfolding load text_eq join
run_install-Holds_example =
    run_install-Holds failing installed_machine password (source (text "old"))
      (other_path compose password refl) (other_path metrics password refl)
      (other_path resolver password refl) refl

run_install-Installed_example : Installed target_machine (run_install system target_machine)
run_install-Installed_example = run_install-Installed system target_machine

-- A whole install.
installed : (run_install system target_machine).0 ≡ ok tt
unfolding run_install stat write_file mkdir_all open_file bin_exists load text_eq join store
installed = refl

all_performed : (run_install system target_machine).1.performed ≡ actions
unfolding run_install stat write_file mkdir_all open_file bin_exists load text_eq join store
all_performed = refl

-- A refused first write of the password leaves a part of it, which a later install keeps.
kept_part :
    load password
      (run_install system (record {
        disk = record machine_disk { files = (password, source (text "se")) ∷ machine_disk.files };
        performed = [];
      })).1.disk.files
    ≡ some (source (text "se"))
unfolding run_install stat write_file mkdir_all open_file bin_exists load text_eq join store
kept_part = refl

abbrev gateway_service : Service
gateway_service = record {
  name = text "gateway";
  ports = record { port = 8080; target_port = 8080; host_ip = [] } ∷ [];
}

abbrev prometheus : Service
prometheus = record {
  name = text "prometheus";
  ports = record { port = 9090; target_port = 9090; host_ip = text "127.0.0.1" } ∷ [];
}

abbrev services : List Service
services = gateway_service ∷ prometheus ∷ []

two_proxies :
    allocate services []
    ≡ ok (
        (
          8080,
          record {
            upstream = text "gateway:8080";
            port = 8080;
            host_ip = text "0.0.0.0";
            timeout = 60000000000;
          },
        )
        ∷ (
          9090,
          record {
            upstream = text "prometheus:9090";
            port = 9090;
            host_ip = text "127.0.0.1";
            timeout = 60000000000;
          },
        )
        ∷ [])
unfolding allocate load store decimal ℕ_discrete
two_proxies = refl

repeated :
    allocate (gateway_service ∷ gateway_service ∷ []) [] ≡ err (text "port 8080 already allocated")
unfolding allocate load store decimal ℕ_discrete
repeated = refl

abbrev faasd : Faasd
faasd = record {
  Config = Unit {0};
  file_flag = ok (text "docker-compose.yaml");
  load_compose_file = λ dir path. ok tt;
  parse_compose = λ config. ok services;
  new_supervisor = λ socket. ok tt;
  start = λ svcs. (ok tt, svcs);
  remove = λ running svcs. (none, []);
  signalled = true;
}

run_up-started_example :
    Serves faasd services services (run_up faasd idle)
    ⊎ Abandons faasd services services (run_up faasd idle)
run_up-started_example =
    run_up-started faasd (text "docker-compose.yaml") tt services services refl refl refl refl refl

abbrev surroundings : Surroundings
surroundings = record {
  pull_policy = ok (text "Always");
  read_from_env = ok (text "/run/containerd/containerd.sock");
  getwd = ok (text "/var/lib/ukfaasd-provider");
  write_file = λ path. ok tt;
  containerd = λ address namespace. ok tt;
  handle = ok tt;
}

-- The provider that the start makes.
abbrev started : Provider registry host
started = record {
  network = internal env;
  server = record {
    functions = no_functions;
    machines = record no_machines {
      maps = [];
      network = record blank { default_load_balancer = some new_random_load_balancer };
    };
  };
  secrets_path = join (text "/var/lib/ukfaasd-provider") (text "secrets");
  always_pull = true;
}

start_provider-IsSound_example :
    let calls = clone (text "f") ∷ scale (text "f") 2 ∷ check [] ∷ [] in
    IsSound host (internal env) (run host (internal env) calls started.server.machines)
    × HasTargets registry (Targets.run registry no_functions (Targets.adds request ∷ []))
unfolding start_provider written provider_of new_function_store new_machine_store
    get_network_controller network_controllers new_internal_network_controller load text_eq
start_provider-IsSound_example =
    start_provider-IsSound registry host host-StopsMachines surroundings
      (network_controllers env gateway tt) tt tt [] started refl
      (clone (text "f") ∷ scale (text "f") 2 ∷ check [] ∷ []) (Targets.adds request ∷ [])

-- A type that was not registered.
no_controller :
    get_network_controller (network_controllers env gateway tt) (text "nginx") []
    ≡ err (text "network Controller nginx not found")
unfolding get_network_controller network_controllers load text_eq
no_controller = refl

version_line :
    print_version (record { version = []; git_commit = text "1a2b" })
    ≡ text "uk-faas version: dirty\tcommit: 1a2b\n"
unfolding print_version text_eq
version_line = refl
