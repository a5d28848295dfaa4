-- ===== src/Handlers/Deployment.antt =====
-- deploy.go: `Deploy`, which makes one machine from an image without the stores, and the goroutine
-- that watches it. The deferred removal of the state directory reads the variable `err` of the
-- function: where an error is returned while that variable is nil, the directory stays.
pub mod Building
pub mod Running
use ukfaas.Prelude.{ℕ, suc, ◌≡◌, Bool, true, false, Option, none, some, List, [], ◌∷◌, ◌++◌, ◌+◌}
use ukfaas.Prelude.Lists.{if◌then◌else◌}
use ukfaas.Prelude.Text.{Text, text, ◌==◌, text_eq}
use ukfaas.Prelude.Map.{without}
use ukfaas.Prelude.Exec.{
  Outcome, ok, err, panic, blocked, Exec, ◌>>=◌, ◌>>◌, pure, fail, crash, lift, modify, wrap,
}
use ukfaas.Functions.{Registry, FunctionDeployment, FunctionResources, Manifest, Target}
use ukfaas.Functions.Add.{matches, require_package}
use ukfaas.Machines.Platform.{Machine, MachineState, Host, Iface, Volume, Answer}
use ukfaas.Machines.Create.{pick_iface}

-- What the goroutine's `select` receives: a state of the machine, a closed channel of states, an
-- error or the end of the channel of errors, or the end of the context.
pub data Event : Type 0 where
  update : MachineState → Event
  closed failure done : Event

-- What `Deploy` calls besides what the stores call.
pub record Kraft (R : Registry) (H : Host) : Type 0 where
  pub new_oci_manager : Exec R.World Text
  pub new_containerd_handler : Exec R.World (Unit {0})
  pub parse_quantity : Text → Outcome ℕ
  pub create_volume : Volume → H.World → Option Volume × Option Text × H.World
  pub watch : Machine → Exec H.World (List Event)
  pub delete : Machine → Exec H.World (Unit {0})

module _ (R : Registry) (H : Host) (K : Kraft R H) where
  open R use {Package}

  -- `dirs` holds the directories made, `watched` the machines with a goroutine, `shutdowns` counts
  -- the calls of `signals.RequestShutdown`, and `printed` holds what is written out.
  pub record Site : Type 0 where
    pub dirs : List Text
    pub watched : List Machine
    pub shutdowns : ℕ
    pub printed : List Text
    pub packages : R.World
    pub host : H.World

  module _ {ℓ} {A : Type ℓ} where
    abbrev pub on_packages : Text → Exec R.World A → Exec Site A
    on_packages note m s = let (r, w) = m s.packages in (wrap note r, record s { packages = w })

    abbrev pub on_host : Exec H.World A → Exec Site A
    on_host m s = let (r, w) = m s.host in (r, record s { host = w })

    abbrev pub ask : (H.World → A × H.World) → Exec Site A
    ask m s = let (a, w) = m s.host in (ok a, record s { host = w })

  remove_all : Text → Site → Site
  remove_all dir s = record s { dirs = without dir s.dirs }

  -- A part whose errors are in `err` when the function returns.
  cleaning {ℓ} : {A : Type ℓ} → Text → Exec Site A → Exec Site A
  unfolding remove_all
  cleaning dir m s = elim (m s).0 [
    | ok a ↦ (ok a, (m s).1)
    | err e ↦ (err e, remove_all dir (m s).1)
    | panic ↦ (panic, (m s).1)
    | blocked ↦ (blocked, (m s).1)
  ]

  -- `machine, err = …`: the deferred call takes the directory from the machine returned.
  settled : Option Text → Option Machine → Exec Site Machine
  unfolding remove_all
  settled none none s = (panic, s)
  settled none (some m) s = (ok m, s)
  settled (some e) none s = (panic, s)
  settled (some e) (some m) s = (err e, remove_all m.state_dir s)
