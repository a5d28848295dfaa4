-- ===== src/Machines/Remove.antt =====
-- `DeleteMachine` and `destroyMachine`.
pub mod Frames
pub mod Removing
pub mod Wiring
pub mod Replicas
use ukfaas.Prelude.{ℕ, ◌≡◌, Bool, true, false, Option, none, some, List, [], ◌∷◌, ◌++◌}
use ukfaas.Prelude.Lists.{leb, if◌then◌else◌, length}
use ukfaas.Prelude.Text.{Text, text, ◌==◌, text_eq}
use ukfaas.Prelude.Map.{Map, load, store, remove}
use ukfaas.Prelude.Exec.{
  Outcome, ok, err, panic, blocked, Exec, ◌>>=◌, ◌>>◌, pure, fail, crash, lift, gets, modify, wrap,
  error_of,
}
use ukfaas.Network.Api.{NetworkController}
use ukfaas.Machines.Platform.{Machine, MachineState, Host, Iface, Answer}
use ukfaas.Machines.{
  service_of, MachineStore, outer, wrapped, ask, on_network, get_function_machine,
}

-- `iface.Spec.IfName[:15]`
unfoldable pub short_name : Text → Outcome Text
short_name (a ∷ b ∷ c ∷ d ∷ e ∷ f ∷ g ∷ h ∷ i ∷ j ∷ k ∷ l ∷ m ∷ n ∷ o ∷ rest) =
    ok (a ∷ b ∷ c ∷ d ∷ e ∷ f ∷ g ∷ h ∷ i ∷ j ∷ k ∷ l ∷ m ∷ n ∷ o ∷ [])
short_name _ = panic

module _ (H : Host) (N : NetworkController) where
  abbrev Store : Type 0
  Store = MachineStore H N

  -- `LinkByName`, whose error is kept for the end: the error, or nothing where there is a link.
  find_link : Text → Exec Store (Option Text)
  find_link name s =
      let (r, w) = H.link_by_name name s.world in
      elim r [
        | ok _ ↦ (ok none, record s { world = w })
        | err e ↦ (ok (some e), record s { world = w })
        | panic ↦ (panic, record s { world = w })
        | blocked ↦ (blocked, record s { world = w })
      ]

  pub delete_link : Text → Text → Option Text → Exec Store (Unit {0})
  delete_link if_name name (some e) = pure tt
  delete_link if_name name none = do
    wrapped H N (text "could not bring " ++ (if_name ++ text " link down: ")) (H.link_set_down name)
    wrapped H N (text "could not delete " ++ (if_name ++ text " link: ")) (H.link_del name)

  -- What is done with the machine that `Stop` returns: nil means that it is gone.
  pub forget_machine : Text → Text → Text → Option Text → Option Machine → Exec Store (Unit {0})
  unfolding delete_link
  forget_machine uid if_name name link_error (some m) =
      modify λ s. record s { machine_instance_map = store uid m s.machine_instance_map }
  forget_machine uid if_name name link_error none = do
    delete_link if_name name link_error
    modify λ s. record s {
      machine_instance_map = remove uid s.machine_instance_map;
      machine_network_map = remove uid s.machine_network_map;
    }

  required_iface : Text → Option Iface → Outcome Iface
  required_iface uid none = err (text "network interface for " ++ (uid ++ text " not found"))
  required_iface uid (some i) = ok i

  pub returned : Option Text → Outcome (Unit {0})
  returned none = ok tt
  returned (some e) = err e

  -- `mplatform.Detect`, `Strategies` and `NewMachineV1alpha1`
  pub machine_controller : Exec Store (Unit {0})
  machine_controller = do
    (platform, e) ← ask H N (λ w. let (p, e, w') = H.detect w in ((p, e), w'))
    lift (returned e)
    if H.supported platform
        then outer H N (H.new_machine_controller platform)
        else fail (text "platform " ++ (platform ++ text " not supported"))

  -- What is known after `Stop` and `LinkByName`: the interface's name and its short form, the error
  -- of the link, and the machine that `Stop` returned.
  abbrev pub Stopped : Type 0
  Stopped = record {
    if_name : Text;
    short : Text;
    link_error : Option Text;
    machine : Option Machine;
  }

  -- After `Stop`: its error is only logged, and the link is looked up.
  linked : Text → Answer → Exec Store Stopped
  unfolding find_link short_name
  linked if_name answer = do
    short ← lift (short_name if_name)
    link_error ← find_link short
    pure (record {
      if_name = if_name;
      short = short;
      link_error = link_error;
      machine = answer.machine;
    })

  -- The interface of the machine, its address taken from the controller, and the stop.
  stop_known : Machine → Exec Store Stopped
  unfolding required_iface linked
  stop_known m = do
    found ← gets (λ s. load m.uid s.machine_network_map)
    iface ← lift (required_iface m.uid found)
    service ← gets (λ s. service_of s.maps m)
    on_network H N (N.delete_service_ip service iface.addr)
    answer ← ask H N (H.stop m)
    linked iface.if_name answer

  -- `destroyMachine` up to its changes of the entries.
  unfoldable pub stop_machine : Machine → Exec Store Stopped
  unfolding machine_controller stop_known returned
  stop_machine m = machine_controller >> stop_known m

  unfoldable pub destroy_machine : Machine → Exec Store (Unit {0})
  unfolding forget_machine returned
  destroy_machine m = do
    r ← stop_machine m
    forget_machine m.uid r.if_name r.short r.link_error r.machine
    lift (returned r.link_error)

  -- The machine is marked before it is destroyed, so that no other call picks it.
  unfoldable pub delete_machine : Text → Exec Store (Unit {0})
  delete_machine service = do
    m ← get_function_machine H N service
    let marked : Machine = record m { state = MachineState.unknown }
    modify λ s. record s { machine_instance_map = store marked.uid marked s.machine_instance_map }
    destroy_machine marked
