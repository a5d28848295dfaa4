-- ===== src/Machines/Create.antt =====
-- `createMachine`. The deferred removal of the state directory reads
-- the variable `err` of the function: errors of inner blocks do not reach it.
pub mod Frames
pub mod Locking
pub mod Creating
pub mod Callers
pub mod Interleaving
pub mod Stuck
use ukfaas.Prelude.{
  ℕ, zero, suc, ◌+◌, ◌≡◌, Bool, true, false, not, Option, none, some, List, [], ◌∷◌, ◌++◌,
}
use ukfaas.Prelude.Lists.{if◌then◌else◌, length, set}
use ukfaas.Prelude.Text.{Text, text, ◌==◌, text_eq}
use ukfaas.Prelude.Map.{Map, load, store, remove, without}
use ukfaas.Prelude.Exec.{
  Outcome, ok, err, panic, blocked, Exec, ◌>>=◌, ◌>>◌, pure, fail, crash, lift, gets, modify, wrap,
}
use ukfaas.Network.Api.{NetworkController}
use ukfaas.Functions.{FunctionDeployment, Target, Registry, FunctionMetaData}
use ukfaas.Machines.Platform.{Machine, MachineState, Host, Iface, Volume, Answer}
use ukfaas.Machines.{
  MachineRequest, Maps, map_at, read_map, MachineStore, outer, wrapped, ask, get_function_machine,
}

abbrev machine_directory : Text
machine_directory = text "/tmp/kraftkit/machines"

abbrev network_name : Text
network_name = text "openfaas0"

-- The interface of the list that has the id of the new one, or the new one itself.
unfoldable pub pick_iface : Iface → List Iface → Iface
pick_iface new [] = new
pick_iface new (i ∷ rest) = let other = pick_iface new rest in if i.uid == new.uid then i else other

module _ (H : Host) (N : NetworkController) where
  abbrev Store : Type 0
  Store = MachineStore H N

  abbrev made_dir : Text → Exec Store (Unit {0})
  made_dir dir = do outer H N (H.mkdir_all dir); modify λ s. record s { dirs = dir ∷ s.dirs }

  -- `os.RemoveAll`
  remove_all : Text → Store → Store
  remove_all dir s = record s { dirs = without dir s.dirs }

  -- A part of the function whose errors are in the variable `err` when it returns: the deferred call
  -- removes the directory.
  unfoldable pub cleaning {ℓ} : {A : Type ℓ} → Text → Exec Store A → Exec Store A
  unfolding remove_all
  cleaning dir m s = elim (m s).0 [
    | ok a ↦ (ok a, (m s).1)
    | err e ↦ (err e, remove_all dir (m s).1)
    | panic ↦ (panic, (m s).1)
    | blocked ↦ (blocked, (m s).1)
  ]

  blank_machine : Text → Text → MachineRequest → Machine
  blank_machine uid dir mreq = record {
    uid = uid;
    name = [];
    state_dir = dir;
    annotations = none;
    labels = none;
    architecture = mreq.architecture;
    platform = mreq.platform;
    kernel = mreq.kernel;
    kernel_path = mreq.kernel_path;
    memory = none;
    volumes = [];
    networks = [];
    state = MachineState.unknown;
  }

  -- The call under an error text of its own.
  instead {ℓ} : {A : Type ℓ} → Text → Exec Store A → Exec Store A
  instead note m s = elim (m s).0 [
    | ok a ↦ (ok a, (m s).1)
    | err e ↦ (err note, (m s).1)
    | panic ↦ (panic, (m s).1)
    | blocked ↦ (blocked, (m s).1)
  ]

  -- The branch of the volumes: the files are copied into the state directory.
  add_volume : Text → Machine → Exec Store (Machine × Text)
  add_volume layer m = do
    outer H N (H.mkdir_all (H.join m.state_dir (text "unikraft")))
    let volume_path = H.join m.state_dir (text "unikraft/fs0")
    wrapped H N (text "failed to copy volume directory : ") (H.copy_directory layer volume_path)
    instead (text "volume service failed") (outer H N H.new_volume_service)
    let volume : Volume = record {
      name = volume_path;
      driver = text "9pfs";
      source = volume_path;
      read_only = false;
    }
    fs0 ← wrapped H N (text "volume creation failed: ") (H.create_volume volume)
    pure (record m { volumes = fs0 ∷ [] }, layer)

  with_volume : Bool → Text → Machine → Exec Store (Machine × Text)
  unfolding add_volume instead
  with_volume true layer m = add_volume layer m
  with_volume false layer m = pure (m, [])

  -- Up to the lock: the machine, with the layer of its volume.
  unfoldable pub prepare : MachineRequest → Exec Store (Machine × Text)
  unfolding blank_machine with_volume
  prepare mreq = do
    uid ← ask H N H.new_uuid
    let dir = H.join machine_directory uid
    made_dir dir
    there ← ask H N (H.exists mreq.storage_path)
    with_volume there mreq.storage_path (blank_machine uid dir mreq)

  -- `m.lock.Lock()`, which waits if the lock is held.
  unfoldable pub acquire : Exec Store (Unit {0})
  acquire s = if s.lock then (blocked, s) else (ok tt, record s { lock = true })

  unfoldable pub release : Exec Store (Unit {0})
  release = modify λ s. record s { lock = false }

  network_service : Text → Bool → Exec Store (Unit {0})
  unfolding remove_all
  network_service dir true = pure tt
  network_service dir false = λ s. (panic, remove_all dir s)

  -- The new interface on the bridge, and the machine with it. The error of the service's constructor
  -- is not tested: its nil service panics when used, and the deferred call runs.
  unfoldable pub attach : Machine → Exec Store (Machine × Iface)
  unfolding network_service
  attach m = cleaning m.state_dir do
    made ← ask H N H.new_network_service
    network_service m.state_dir made
    ifaces ← outer H N (H.get_network network_name)
    let new : Iface = record {
      uid = m.uid;
      if_name = network_name ++ (text "@if" ++ m.uid);
      addr = [];
    }
    updated ← outer H N (H.update_network (ifaces ++ new ∷ []))
    let iface = pick_iface new updated
    pure (record m { networks = (iface ∷ []) ∷ [] }, iface)

  -- `make(map[string]string)`, at a new address.
  fresh_map : Exec Store (Option ℕ)
  fresh_map s = (ok (some (length s.maps)), record s { maps = s.maps ++ [] ∷ [] })

  given_map : Option (Option ℕ) → Exec Store (Option ℕ)
  unfolding fresh_map
  given_map none = fresh_map
  given_map (some m) = pure m

  -- `m[key] = value`, which panics on a nil map.
  write_map : Option ℕ → Text → Text → Exec Store (Unit {0})
  write_map none key value = crash
  write_map (some a) key value =
      modify λ s. record s { maps = set s.maps a (store key value (map_at s.maps (some a))) }

  unfoldable pub describe : MachineRequest → Text → Machine → Exec Store Machine
  unfolding given_map write_map map_at
  describe mreq layer m = do
    name ← ask H N H.random_name
    annotations ← given_map mreq.annotations
    labels ← given_map mreq.labels
    write_map labels (text "ukfaas.io/service") mreq.service
    write_map labels (text "ukfaas.io/image") mreq.image
    write_map labels (text "ukfaas.io/namespace") mreq.namespace
    write_map annotations (text "ukfaas.io/filesystem") layer
    pure (record m { name = name; annotations = annotations; labels = labels })

  -- The outcome of `machine, err = …`: on an error the deferred call takes the directory from the
  -- machine returned, and panics if that is nil; without an error the machine may be nil.
  pub returned : Answer → Exec Store (Option Machine)
  unfolding remove_all
  returned a = elim a.error [
    | none ↦ pure a.machine
    | some e ↦ elim a.machine [ none ↦ crash | some m ↦ (λ s. (err e, remove_all m.state_dir s)) ]
  ]

  -- The same where the machine is used next.
  pub settled : Answer → Exec Store Machine
  unfolding returned
  settled a = do machine ← returned a; elim machine [ none ↦ crash | some m ↦ pure m ]

  -- The platform. Where the detection had no error, a platform that is not supported leaves the
  -- directory.
  supported_platform : Text → Text → Option Text → Exec Store Text
  supported_platform dir platform detect_error =
      let problem : Exec Store Text =
        fail (text "platform " ++ (platform ++ text " not supported")) in
      if H.supported platform
      then pure platform
      else elim detect_error [ none ↦ problem | some e ↦ cleaning dir problem ]

  unfoldable pub launch : Machine → Exec Store (Option Machine)
  unfolding supported_platform returned
  launch m = do
    (platform, e) ← ask H N (λ w. let (p, e, w') = H.detect w in ((p, e), w'))
    p ← supported_platform m.state_dir platform e
    cleaning m.state_dir (outer H N (H.new_machine_controller p))
    answer ← ask H N (H.create m)
    returned answer

  pollers : Text → List Iface → List (Text × Text)
  pollers service [] = []
  pollers service (i ∷ rest) = (service, i.addr) ∷ pollers service rest

  all_pollers : Text → List (List Iface) → List (Text × Text)
  unfolding pollers
  all_pollers service [] = []
  all_pollers service (n ∷ rest) = pollers service n ++ all_pollers service rest

  -- What runs between `Lock` and `Unlock`.
  unfoldable pub held : MachineRequest → Machine × Text → Exec Store (Option Machine × Iface)
  held mreq (m, layer) = do
    (attached, iface) ← attach m
    described ← describe mreq layer attached
    launched ← launch described
    pure (launched, iface)

  -- An error returns before the `Unlock`.
  unfoldable pub critical : MachineRequest → Machine × Text → Exec Store (Option Machine × Iface)
  critical mreq prepared = do acquire; launched ← held mreq prepared; release; pure launched

  -- After `Unlock`: a poller for each address, which panics if `Create` returned no machine, the start
  -- of the machine, and its entries.
  unfoldable pub finish : MachineRequest → Option Machine × Iface → Exec Store (Unit {0})
  unfolding all_pollers settled returned
  finish mreq (none, iface) = crash
  finish mreq (some m, iface) = do
    modify λ s. record s { waiting = s.waiting ++ all_pollers mreq.service m.networks }
    answer ← ask H N (H.start m)
    started ← settled answer
    modify λ s. record s {
      machine_instance_map = store started.uid started s.machine_instance_map;
      machine_network_map = store started.uid iface s.machine_network_map;
    }

  unfoldable pub create_machine : MachineRequest → Exec Store (Unit {0})
  create_machine mreq = do
    prepared ← prepare mreq
    launched ← critical mreq prepared
    finish mreq launched

  -- The poller at a place of the list, and the others.
  pick_poller : ℕ → List (Text × Text) → Option (Text × Text) × List (Text × Text)
  pick_poller i [] = (none, [])
  pick_poller zero (p ∷ rest) = (some p, rest)
  pick_poller (suc i) (p ∷ rest) = let (q, others) = pick_poller i rest in (q, p ∷ others)

  -- A poller whose machine has answered registers its address, drops the error and ends; the pollers
  -- end in any order.
  unfoldable pub watchdog_answers : ℕ → Exec Store (Unit {0})
  unfolding pick_poller
  watchdog_answers i s =
      let (p, rest) = pick_poller i s.waiting in
      elim p [
        | none ↦ (ok tt, s)
        | some (service, addr) ↦ (
          ok tt,
          record s { waiting = rest; network = (N.add_service_ip service addr s.network).1 },
        )
      ]
