-- ===== src/Machines/Remove/Frames.antt =====
-- What the calls in `destroyMachine` leave alone.
use ukfaas.Prelude.{◌≡◌, refl, Option, none, some, arith}
use ukfaas.Prelude.Text.{Text, text_eq}
use ukfaas.Prelude.Map.{Map}
use ukfaas.Prelude.Exec.{Outcome, ok, err, panic, blocked, Exec, after as after_outcome, ◌>>◌, lift}
use ukfaas.Prelude.Frame.{Frame, frame_rules}
use ukfaas.Network.Api.{NetworkController}
use ukfaas.Machines.Platform.{Machine, Iface, Host, Answer}
use ukfaas.Machines.{Maps, MachineStore, outer, wrapped, ask, on_network}
use ukfaas.Machines.Remove.{
  find_link, linked, delete_link, forget_machine, returned, machine_controller, Stopped,
  stop_machine, stop_known,
}

module _ (H : Host) (N : NetworkController) where
  abbrev Store : Type 0
  Store = MachineStore H N

  -- The machines, their interfaces, and the heap of the labels.
  abbrev pub entries : Store → Map Text Machine × Map Text Iface × Maps
  entries s = (s.machine_instance_map, s.machine_network_map, s.maps)

  module _ {ℓ} {A : Type ℓ} where
    Frame-outer : (m : Exec H.World A) → Frame entries (outer H N m)
    Frame-outer m = record { at = λ s. refl }

    Frame-wrapped : (note : _) (m : Exec H.World A) → Frame entries (wrapped H N note m)
    Frame-wrapped note m = record { at = λ s. refl }

    Frame-ask : (m : H.World → A × H.World) → Frame entries (ask H N m)
    Frame-ask m = record { at = λ s. refl }

  on_network-Frame : (m : Exec N.State (Unit {0})) → Frame entries (on_network H N m)
  on_network-Frame m = record { at = λ s. refl }

  find_link-Frame : (name : Text) → Frame entries (find_link H N name)
  unfolding find_link
  find_link-Frame name = record { at = λ s. ground arith }

  linked-Frame : (if_name : Text) (answer : Answer) → Frame entries (linked H N if_name answer)
  unfolding linked
  linked-Frame if_name answer = search (frame_rules, find_link-Frame)

  pub machine_controller-Frame : Frame entries (machine_controller H N)
  unfolding machine_controller
  machine_controller-Frame = search (frame_rules, Frame-ask, Frame-outer) depth 12

  pub stop_machine-Frame : (m : Machine) → Frame entries (stop_machine H N m)
  unfolding stop_machine stop_known
  stop_machine-Frame m =
      search (frame_rules, machine_controller-Frame, on_network-Frame, Frame-ask, linked-Frame)
        depth 16

  pub delete_link-Frame :
      (if_name short : Text) (e : Option Text) → Frame entries (delete_link H N if_name short e)
  unfolding delete_link
  delete_link-Frame if_name short (some e) = record { at = λ s. refl }
  delete_link-Frame if_name short none = search (frame_rules, Frame-wrapped)

  -- The rest of `destroyMachine` once the machine has been stopped, on each outcome.
  unfoldable pub rest_of : Text → Outcome (Stopped H N) × Store → Store
  rest_of uid r =
      (after_outcome r.0
        (λ x.
          forget_machine H N uid x.if_name x.short x.link_error x.machine
          >> lift (returned H N x.link_error))
        r.1).1

  pub lifted :
      (r : Outcome (Unit {0})) (o : Outcome (Unit {0})) (t : Store)
      → (after_outcome o (λ _. lift r) t).1 ≡ t
  lifted r (ok _) t = refl
  lifted r (err e) t = refl
  lifted r panic t = refl
  lifted r blocked t = refl
