-- ===== src/Command/Provider.antt =====
-- cmd/provider.go up to the call that serves: the files that it writes, and the stores and the
-- network controller that its handlers share.
pub mod Serving
use ukfaas.Prelude.{Bool, List, [], ◌∷◌, ◌++◌}
use ukfaas.Prelude.Text.{Text, text, ◌==◌, text_eq}
use ukfaas.Prelude.Map.{Map, store}
use ukfaas.Prelude.Exec.{
  Outcome, ok, err, panic, blocked, Exec, pure, lift, wrap, modify, ◌>>=◌, ◌>>◌,
}
use ukfaas.Network.Api.{NetworkController}
use ukfaas.Network.Manager.{Made, Constructor, get_network_controller}
use ukfaas.Functions.{Registry, FunctionStore}
use ukfaas.Functions.Opening.{new_function_store}
use ukfaas.Machines.Platform.{Host}
use ukfaas.Machines.{new_machine_store}
use ukfaas.Handlers.Requests.{Server}
use ukfaas.Command.Disk.{join}

-- The flag of the command, the configuration of faas-provider and faasd, of which the address of
-- containerd is used, the operating system's calls, and what connects to containerd.
pub record Surroundings : Type 0 where
  pub pull_policy : Outcome Text
  pub read_from_env : Outcome Text
  pub getwd : Outcome Text
  pub write_file : Text → Outcome (Unit {0})
  pub containerd : Text → Text → Outcome (Unit {0})
  pub handle : Outcome (Unit {0})

abbrev pub Files : Type 0
Files = Map Text Text

-- A raw literal of Go: its backslash and n are two bytes.
abbrev pub hosts_content : Text
hosts_content = text "127.0.0.1\tlocalhost\\n127.0.0.1\tukfaas.dev"

abbrev pub resolv_content : Text
resolv_content = text "nameserver 8.8.8.8"

unfoldable pub written : Text → Text → Outcome (Unit {0}) → Exec Files (Unit {0})
written path content (ok u) files = (ok tt, store path content files)
written path content (err e) files = (err e, files)
written path content panic files = (panic, files)
written path content blocked files = (blocked, files)

module _ (R : Registry) (H : Host) where
  -- What the handlers are made of.
  pub record Provider : Type 1 where
    pub network : NetworkController
    pub server : Server R H network
    pub secrets_path : Text
    pub always_pull : Bool

  -- The stores over a controller that has just been made; its health checks and those of the
  -- machine store run beside the handlers from here on.
  unfoldable pub provider_of : Text → Bool → FunctionStore R → H.World → Made → Provider
  unfolding new_machine_store
  provider_of wd always_pull functions w made = record {
    network = made.api;
    server = record { functions = functions; machines = new_machine_store H made.api made.state w };
    secrets_path = join wd (text "secrets");
    always_pull = always_pull;
  }

  unfoldable pub start_provider :
      Surroundings → Map Text Constructor → R.World → H.World → Exec Files Provider
  unfolding written provider_of get_network_controller new_function_store
  start_provider out registry fw hw = do
    policy ← lift out.pull_policy
    let always_pull = policy == text "Always"
    sock ← lift out.read_from_env
    wd ← lift out.getwd
    λ files.
        let path = join wd (text "hosts") in
        let (r, files') = written path hosts_content (out.write_file path) files in
        (wrap (text "cannot write hosts file: ") r, files')
    λ files.
        let path = join wd (text "resolv.conf") in
        let (r, files') = written path resolv_content (out.write_file path) files in
        (wrap (text "cannot write resolv.conf file: ") r, files')
    functions ← new_function_store R (out.containerd sock (text "default")) out.handle fw
    made ← lift (get_network_controller registry (text "internal") [])
    pure (provider_of wd always_pull functions hw made)
