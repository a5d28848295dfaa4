-- ===== src/Tests/Deployment.antt =====
-- `Deploy` and its goroutine at concrete inputs.
use ukfaas.Prelude.{◌≡◌, refl, false, none, some, [], ◌∷◌}
use ukfaas.Prelude.Text.{text, text_eq}
use ukfaas.Prelude.Map.{load}
use ukfaas.Prelude.Exec.{ok, err, blocked}
use ukfaas.Functions.{FunctionDeployment}
use ukfaas.Functions.Add.{matches}
use ukfaas.Machines.Platform.{MachineState}
use ukfaas.Machines.Create.{pick_iface}
use ukfaas.Handlers.Deployment.{Kraft, Site, update, failure, done}
use ukfaas.Handlers.Deployment.Building.{
  choose_package, make_state_dir, pull_target, mount_volume, attach_iface, create, build,
}
use ukfaas.Handlers.Deployment.Running.{watch_loop, start, deploy, watch}
use ukfaas.Handlers.Deployment.Running.Watching.{Watched, deploy-Watched}
use ukfaas.Tests.Fixtures.{registry, request, host, machine}

-- A quantity is never read, and a machine says first that it runs and then that it has exited.
abbrev kraft : Kraft registry host
kraft = record {
  new_oci_manager = λ w. (ok (text "oci"), w);
  new_containerd_handler = λ w. (ok tt, w);
  parse_quantity = λ t. err (text "no quantity");
  create_volume = λ v w. (some v, none, w);
  watch = λ m w. (ok (update MachineState.running ∷ update MachineState.exited ∷ []), w);
  delete = λ m w. (ok tt, w);
}

abbrev site : Site registry host kraft
site = record { dirs = []; watched = []; shutdowns = 0; printed = []; packages = tt; host = tt }

deploy-Watched_example : Watched registry host kraft site (deploy registry host kraft request site)
deploy-Watched_example = deploy-Watched registry host kraft request site

-- The directory of a deployment whose memory cannot be read stays.
abbrev bad_memory : FunctionDeployment
bad_memory = record request { limits = some (record { memory = text "lots"; cpu = [] }) }

left_directory :
    deploy registry host kraft bad_memory site
    ≡ (err (text "no quantity"), record site { dirs = text "/tmp/kraftkit/u2" ∷ [] })
unfolding deploy build choose_package make_state_dir pull_target matches load text_eq
left_directory = refl

deployed :
    let s = (deploy registry host kraft request site).1 in
    (s.dirs ≡ text "/tmp/kraftkit/u2" ∷ []) × (s.printed ≡ text "jolly" ∷ [])
unfolding deploy build choose_package make_state_dir pull_target mount_volume attach_iface create
    start matches load text_eq pick_iface
deployed = (refl, refl)

-- The goroutine asks for the shutdown and takes the machine away; a machine that goes on is waited for.
exited : watch registry host kraft machine site ≡ (ok tt, record site { shutdowns = 1 })
unfolding watch watch_loop
exited = refl

waits : watch_loop (update MachineState.running ∷ []) ≡ blocked
unfolding watch_loop
waits = refl

cancelled : watch_loop (done ∷ failure ∷ []) ≡ ok false
unfolding watch_loop
cancelled = refl
