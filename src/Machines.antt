-- ===== src/Machines.antt =====
-- pkg/store/machine.go: the machine store.
-- What it calls of kraftkit, netlink and the operating system is the parameter `Host`: operations on
-- a state of their own, of which a theorem assumes what it names. The network controller is the
-- parameter `N`. A Go map is shared by whoever holds it, so label and annotation maps lie in a heap,
-- `maps`, and a machine holds their addresses.
pub mod Platform
pub mod Create
pub mod Launch
pub mod Remove
pub mod Scale
pub mod Counting
pub mod Running
use Platform.{Machine, MachineState, is_running, Host, Iface, Answer}
use ukfaas.Prelude.{
  ℕ, zero, suc, ◌+◌, ◌-◌, ◌≡◌, Bool, true, false, ◌&&◌, not, Option, none, some, List, [], ◌∷◌,
  ◌++◌,
}
use ukfaas.Prelude.Lists.{ltb, if◌then◌else◌, length, get_elem?, set}
use ukfaas.Prelude.Text.{Text, text, ◌==◌, text_eq}
use ukfaas.Prelude.Map.{Map, load, store, remove}
use ukfaas.Prelude.Exec.{
  Outcome, ok, err, panic, blocked, Exec, ◌>>=◌, ◌>>◌, pure, fail, crash, lift, gets, modify, wrap,
}
use ukfaas.Network.Api.{NetworkController}

-- What the labels say of a machine, and where its files are.
pub record MachineRequest : Type 0 where
  pub service : Text
  pub image : Text
  pub namespace : Text
  pub architecture : Text
  pub platform : Text
  pub kernel : Text
  pub kernel_path : Text
  pub storage_path : Text
  pub annotations : Option (Option ℕ)
  pub labels : Option (Option ℕ)

-- The maps that live on the heap; a map that is nil reads as empty.
abbrev pub Maps : Type 0
Maps = List (Map Text Text)

unfoldable pub map_at : Maps → Option ℕ → Map Text Text
map_at maps none = []
map_at maps (some a) = elim (get_elem? maps a) [ none ↦ [] | some m ↦ m ]

or_empty : Option Text → Text
or_empty none = []
or_empty (some t) = t

-- `m["key"]`, which is the empty text for a key that is not there.
unfoldable pub read_map : Maps → Option ℕ → Text → Text
unfolding map_at or_empty
read_map maps a key = or_empty (load key (map_at maps a))

unfoldable pub service_of : Maps → Machine → Text
unfolding read_map
service_of maps m = read_map maps m.labels (text "ukfaas.io/service")

-- The test that `GetReplicas` and `getFunctionMachine` make of an entry.
unfoldable pub serves : Text → Maps → Machine → Bool
serves service maps m = service_of maps m == service && is_running m.state

module _ (H : Host) (N : NetworkController) where
  -- `waiting` holds a service and an address for each goroutine that polls a new machine; `dirs` the
  -- directories that the store has made.
  pub record MachineStore : Type 0 where
    pub lock : Bool
    pub health_check_lock : Bool
    pub machine_instance_map : Map Text Machine
    pub machine_network_map : Map Text Iface
    pub network : N.State
    pub maps : Maps
    pub dirs : List Text
    pub waiting : List (Text × Text)
    pub world : H.World

  -- A call to the outside, with its error, or with a note before its error.
  abbrev pub outer {ℓ} : {A : Type ℓ} → Exec H.World A → Exec MachineStore A
  outer m s = let (r, w) = m s.world in (r, record s { world = w })

  abbrev pub wrapped {ℓ} : {A : Type ℓ} → Text → Exec H.World A → Exec MachineStore A
  wrapped note m s = let (r, w) = m s.world in (wrap note r, record s { world = w })

  -- A call that cannot fail.
  abbrev pub ask {ℓ} : {A : Type ℓ} → (H.World → A × H.World) → Exec MachineStore A
  ask m s = let (a, w) = m s.world in (ok a, record s { world = w })

  abbrev pub on_network : Exec N.State (Unit {0}) → Exec MachineStore (Unit {0})
  on_network m s = let (r, n) = m s.network in (r, record s { network = n })

  unfoldable pub new_machine_store : N.State → H.World → MachineStore
  new_machine_store n w = record {
    lock = false;
    health_check_lock = false;
    machine_instance_map = [];
    machine_network_map = [];
    network = n;
    maps = [];
    dirs = [];
    waiting = [];
    world = w;
  }

  -- The range of `GetMachinesForFunction`.
  machines_of : Text → Maps → Map Text Machine → List Machine
  machines_of service maps [] = []
  machines_of service maps ((_, m) ∷ rest) =
      let more = machines_of service maps rest in
      if service_of maps m == service then m ∷ more else more

  unfoldable pub get_machines_for_function : Text → MachineStore → List Machine
  unfolding machines_of
  get_machines_for_function service s = machines_of service s.maps s.machine_instance_map

  unfoldable pub count_serving : Text → Maps → Map Text Machine → ℕ
  count_serving service maps [] = 0
  count_serving service maps ((_, m) ∷ rest) =
      let count = count_serving service maps rest in
      if serves service maps m then suc count else count

  unfoldable pub get_replicas : Text → MachineStore → ℕ
  get_replicas service s = count_serving service s.maps s.machine_instance_map

  or_zero : Outcome ℕ → ℕ
  or_zero (ok count) = count
  or_zero _ = 0

  -- The error is dropped, and the count with it is 0.
  unfoldable pub get_available_replicas : Text → MachineStore → ℕ
  unfolding or_zero
  get_available_replicas service s = or_zero (N.available_ips service s.network)

  -- The range of `getFunctionMachine` ends at the first machine that fits.
  unfoldable pub first_serving : Text → Maps → Map Text Machine → Option Machine
  first_serving service maps [] = none
  first_serving service maps ((_, m) ∷ rest) =
      let more = first_serving service maps rest in if serves service maps m then some m else more

  required : Text → Option Machine → Outcome Machine
  required service none = err (text "function " ++ (service ++ text " not found"))
  required service (some m) = ok m

  unfoldable pub get_function_machine : Text → Exec MachineStore Machine
  unfolding required
  get_function_machine service s =
      (required service (first_serving service s.maps s.machine_instance_map), s)
