-- ===== src/Machines/Platform.antt =====
-- The data that pkg/store/machine.go hands to kraftkit and netlink, and what it calls of them.
use ukfaas.Prelude.{ℕ, Bool, true, false, Option, List}
use ukfaas.Prelude.Text.{Text}
use ukfaas.Prelude.Exec.{Exec}

pub data MachineState : Type 0 where
  unknown created running paused restarting suspended exited failed : MachineState

unfoldable pub is_running : MachineState → Bool
is_running MachineState.running = true
is_running _ = false

pub record Volume : Type 0 where
  pub name : Text
  pub driver : Text
  pub source : Text
  pub read_only : Bool

-- `NetworkInterfaceTemplateSpec`
pub record Iface : Type 0 where
  pub uid : Text
  pub if_name : Text
  pub addr : Text

-- `Machine`; the label and annotation maps are addresses, or nil.
pub record Machine : Type 0 where
  pub uid : Text
  pub name : Text
  pub state_dir : Text
  pub annotations : Option ℕ
  pub labels : Option ℕ
  pub architecture : Text
  pub platform : Text
  pub kernel : Text
  pub kernel_path : Text
  -- the request of memory, in bytes
  pub memory : Option ℕ
  pub volumes : List Volume
  pub networks : List (List Iface)
  pub state : MachineState

-- A call that returns a pointer and an error, either of which may be nil.
abbrev pub Answer : Type 0
Answer = record { machine : Option Machine; error : Option Text }

pub record Host : Type 1 where
  pub World : Type 0
  pub new_uuid : World → Text × World
  pub random_name : World → Text × World
  pub join : Text → Text → Text
  pub mkdir_all : Text → Exec World (Unit {0})
  pub exists : Text → World → Bool × World
  pub copy_directory : Text → Text → Exec World (Unit {0})
  pub new_volume_service : Exec World (Unit {0})
  pub create_volume : Volume → Exec World Volume
  pub new_network_service : World → Bool × World
  pub get_network : Text → Exec World (List Iface)
  pub update_network : List Iface → Exec World (List Iface)
  pub detect : World → Text × Option Text × World
  pub supported : Text → Bool
  pub new_machine_controller : Text → Exec World (Unit {0})
  pub create : Machine → World → Answer × World
  pub start : Machine → World → Answer × World
  pub stop : Machine → World → Answer × World
  -- The refresh of the machine that `Get` is given is left out.
  pub get : Machine → Exec World Machine
  pub link_by_name : Text → Exec World (Unit {0})
  pub link_set_down : Text → Exec World (Unit {0})
  pub link_del : Text → Exec World (Unit {0})
