-- ===== src/Handlers/Deployment/Building.antt =====
-- `Deploy` up to the goroutine of its machine.
pub mod Quiet
use ukfaas.Prelude.{ℕ, suc, ◌≡◌, Bool, true, false, Option, none, some, List, [], ◌∷◌, ◌++◌, ◌+◌}
use ukfaas.Prelude.Lists.{if◌then◌else◌}
use ukfaas.Prelude.Text.{Text, text, ◌==◌, text_eq}
use ukfaas.Prelude.Map.{without}
use ukfaas.Prelude.Exec.{
  Outcome, ok, err, panic, blocked, Exec, ◌>>=◌, ◌>>◌, pure, fail, crash, lift, modify, wrap,
}
use ukfaas.Functions.{Registry, FunctionDeployment, FunctionResources, Manifest, Target}
use ukfaas.Functions.Add.{matches, require_package}
use ukfaas.Machines.Platform.{Machine, MachineState, Host, Iface, Volume, Answer}
use ukfaas.Machines.Create.{pick_iface}
use ukfaas.Handlers.Deployment.{
  Event, update, closed, failure, done, Kraft, Site, on_packages, on_host, ask, remove_all,
  cleaning, settled,
}

module _ (R : Registry) (H : Host) (K : Kraft R H) where
  open R use {Package}

  -- The loop over the manifests ends at the first package made without an error.
  picked :
      Option Text → Option Package → Exec R.World (Option Package) → Exec R.World (Option Package)
  picked none p rest w = (ok p, w)
  picked (some e) p rest w = rest w

  find_deployable : Text → List Manifest → Option Package → Exec R.World (Option Package)
  unfolding picked
  find_deployable ref [] found = pure found
  find_deployable ref (m ∷ ms) found =
      let rest = find_deployable ref ms in
      if matches R ref m
      then (λ w. let (p, e, w') = R.new_package ref m w in picked e p (rest p) w')
      else rest found

  some_package : Option Package → Exec (Site R H K) Package
  some_package none = fail (text "no manifests found")
  some_package (some p) = pure p

  -- Up to the package: the format of the package manager, and the package.
  unfoldable pub choose_package : FunctionDeployment → Exec (Site R H K) (Text × Package)
  unfolding find_deployable some_package
  choose_package req = do
    format ← on_packages R H K (text "pm initialisation failed with: ") K.new_oci_manager
    ref ← lift (wrap (text "name parse failed with: ") (R.parse_reference req.image))
    on_packages R H K (text "handler initialisation failed with: ") K.new_containerd_handler
    manifests ← on_packages R H K (text "list manifests failed with: ") R.list_manifests
    found ← on_packages R H K [] (find_deployable ref manifests none)
    p ← some_package found
    pure (format, p)

  -- The state directory.
  unfoldable pub make_state_dir : Exec (Site R H K) (Text × Text)
  make_state_dir = do
    uid ← ask R H K H.new_uuid
    let dir = H.join (text "/tmp/kraftkit") uid
    on_host R H K (H.mkdir_all dir)
    modify λ s. record s { dirs = dir ∷ s.dirs }
    pure (uid, dir)

  some_target : Option Target → Exec (Site R H K) Target
  some_target none = fail (text "package does not convert to target")
  some_target (some t) = pure t

  quantity_of : Text → Exec (Site R H K) (Option ℕ)
  quantity_of [] = pure none
  quantity_of (c ∷ cs) = do q ← lift (K.parse_quantity (c ∷ cs)); pure (some q)

  -- The memory of the limits: the error of its text is another variable.
  memory_of : Option FunctionResources → Exec (Site R H K) (Option ℕ)
  unfolding quantity_of
  memory_of none = pure none
  memory_of (some limits) = quantity_of limits.memory

  -- The error of the detection is overwritten by that of the pull.
  unfoldable pub pull_target :
      FunctionDeployment → Text × Package → Text × Text → Exec (Site R H K) (Machine × Text)
  unfolding cleaning some_target memory_of
  pull_target req (format, p) (uid, dir) = do
    platform ← ask R H K (λ w. let (q, e, w') = H.detect w in (q, w'))
    cleaning R H K dir (on_packages R H K [] (R.pull p dir platform))
    targ ← some_target (R.as_target p)
    memory ← memory_of req.limits
    let machine : Machine = record {
      uid = uid;
      name = [];
      state_dir = dir;
      annotations = none;
      labels = none;
      architecture = targ.architecture;
      platform = targ.platform;
      kernel = format ++ (text "://" ++ req.image);
      kernel_path = targ.kernel;
      memory = memory;
      volumes = [];
      networks = [];
      state = MachineState.unknown;
    }
    pure (machine, platform)

  instead {ℓ} : {A : Type ℓ} → Text → Outcome A → Outcome A
  instead note (ok a) = ok a
  instead note (err e) = err note
  instead note panic = panic
  instead note blocked = blocked

  -- The error of `Create` is not tested, and its volume is used: nil panics, and the deferred call
  -- runs upon the error that is there.
  volume_or_panic : Text → Option Volume → Option Text → Exec (Site R H K) Volume
  unfolding remove_all
  volume_or_panic dir (some v) e s = (ok v, s)
  volume_or_panic dir none none s = (panic, s)
  volume_or_panic dir none (some e) s = (panic, remove_all R H K dir s)

  unfoldable pub mount_volume : Machine → Exec (Site R H K) Machine
  unfolding cleaning instead volume_or_panic
  mount_volume m = do
    let path = H.join m.state_dir (text "unikraft/fs0")
    let volume : Volume = record {
      name = path;
      driver = text "9pfs";
      source = path;
      read_only = false;
    }
    cleaning R H K m.state_dir (
        on_host R H K (λ w.
          let (r, w') = H.new_volume_service w in (instead (text "volume service failed") r, w')))
    (v, e) ← ask R H K (λ w. let (v, e, w') = K.create_volume volume w in ((v, e), w'))
    fs0 ← volume_or_panic m.state_dir v e
    pure (record m { volumes = fs0 ∷ [] })

  network_service : Text → Bool → Exec (Site R H K) (Unit {0})
  unfolding remove_all
  network_service dir true s = (ok tt, s)
  network_service dir false s = (panic, remove_all R H K dir s)

  -- The new interface on the bridge docker0. The error of the service's constructor is not tested:
  -- its nil service panics when used, and the deferred call runs.
  unfoldable pub attach_iface : Machine → Exec (Site R H K) Machine
  unfolding cleaning network_service
  attach_iface m = do
    made ← ask R H K H.new_network_service
    network_service m.state_dir made
    ifaces ← cleaning R H K m.state_dir (on_host R H K (H.get_network (text "docker0")))
    uid ← ask R H K H.new_uuid
    let new : Iface = record { uid = uid; if_name = []; addr = [] }
    updated ← cleaning R H K m.state_dir (on_host R H K (H.update_network (ifaces ++ new ∷ [])))
    name ← ask R H K H.random_name
    pure (record m { name = name; networks = (pick_iface new updated ∷ []) ∷ [] })

  supported : Text → Bool → Exec (Site R H K) (Unit {0})
  supported platform true = pure tt
  supported platform false = fail (text "platform " ++ (platform ++ text " not supported"))

  unfoldable pub create : Machine × Text → Exec (Site R H K) Machine
  unfolding cleaning settled supported
  create (m, platform) = do
    supported platform (H.supported platform)
    cleaning R H K m.state_dir (on_host R H K (H.new_machine_controller platform))
    answer ← ask R H K (H.create m)
    settled R H K answer.error answer.machine

  -- `Deploy` up to the goroutine.
  unfoldable pub build : FunctionDeployment → Exec (Site R H K) Machine
  build req = do
    chosen ← choose_package req
    place ← make_state_dir
    (m, platform) ← pull_target req chosen place
    mounted ← mount_volume m
    attached ← attach_iface mounted
    create (attached, platform)
