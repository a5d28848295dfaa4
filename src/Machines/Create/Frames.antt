-- ===== src/Machines/Create/Frames.antt =====
-- What the parts of `createMachine` leave alone: the lock and the entries of the store.
use ukfaas.Prelude.{ℕ, refl, Bool, true, false, Option, none, some, ◌∷◌, arith}
use ukfaas.Prelude.Text.{Text}
use ukfaas.Prelude.Map.{Map}
use ukfaas.Prelude.Exec.{Exec, modify}
use ukfaas.Prelude.Frame.{Frame, frame_rules}
use ukfaas.Network.Api.{NetworkController}
use ukfaas.Machines.Platform.{Machine, Host, Iface, Answer}
use ukfaas.Machines.{MachineRequest, MachineStore, outer, wrapped, ask}
use ukfaas.Machines.Create.{
  cleaning, instead, with_volume, prepare, network_service, attach, given_map, write_map, describe,
  returned, settled, supported_platform, launch,
}

module _ (H : Host) (N : NetworkController) where
  abbrev pub Store : Type 0
  Store = MachineStore H N

  -- The lock, and the entries of machines and of their networks.
  abbrev pub locked_entries : Store → Bool × Map Text Machine × Map Text Iface
  locked_entries s = (s.lock, s.machine_instance_map, s.machine_network_map)

  module _ {ℓ} {A : Type ℓ} where
    Frame-outer : (m : Exec H.World A) → Frame locked_entries (outer H N m)
    Frame-outer m = record { at = λ s. refl }

    Frame-wrapped : (note : Text) (m : Exec H.World A) → Frame locked_entries (wrapped H N note m)
    Frame-wrapped note m = record { at = λ s. refl }

    Frame-ask : (m : H.World → A × H.World) → Frame locked_entries (ask H N m)
    Frame-ask m = record { at = λ s. refl }

    Frame-cleaning :
        (dir : Text) (m : Exec Store A)
        → Frame locked_entries m
        → Frame locked_entries (cleaning H N dir m)
    unfolding cleaning
    Frame-cleaning dir m h = record { at = λ s. ground (arith, h.at s) }

    Frame-instead :
        (note : Text) (m : Exec Store A)
        → Frame locked_entries m
        → Frame locked_entries (instead H N note m)
    unfolding instead
    Frame-instead note m h = record { at = λ s. ground (arith, h.at s) }

  made_dir-Frame :
      (dir : Text) → Frame locked_entries (modify λ (s : Store). record s { dirs = dir ∷ s.dirs })
  made_dir-Frame dir = record { at = λ s. refl }

  with_volume-Frame :
      (there : Bool) (layer : Text) (m : Machine)
      → Frame locked_entries (with_volume H N there layer m)
  unfolding with_volume
  with_volume-Frame true layer m =
      search (frame_rules, Frame-outer, Frame-wrapped, Frame-instead) depth 12
  with_volume-Frame false layer m = record { at = λ s. refl }

  pub prepare-Frame : (mreq : MachineRequest) → Frame locked_entries (prepare H N mreq)
  unfolding prepare
  prepare-Frame mreq =
      search (frame_rules, Frame-outer, Frame-ask, made_dir-Frame, with_volume-Frame) depth 12

  network_service-Frame :
      (dir : Text) (made : Bool) → Frame locked_entries (network_service H N dir made)
  unfolding network_service
  network_service-Frame dir true = record { at = λ s. refl }
  network_service-Frame dir false = record { at = λ s. refl }

  pub attach-Frame : (m : Machine) → Frame locked_entries (attach H N m)
  unfolding attach
  attach-Frame m =
      search (frame_rules, Frame-cleaning, Frame-outer, Frame-ask, network_service-Frame) depth 12

  given_map-Frame : (m : Option (Option ℕ)) → Frame locked_entries (given_map H N m)
  unfolding given_map
  given_map-Frame none = record { at = λ s. refl }
  given_map-Frame (some m) = record { at = λ s. refl }

  write_map-Frame :
      (m : Option ℕ) (key value : Text) → Frame locked_entries (write_map H N m key value)
  unfolding write_map
  write_map-Frame none key value = record { at = λ s. refl }
  write_map-Frame (some a) key value = record { at = λ s. refl }

  pub describe-Frame :
      (mreq : MachineRequest) (layer : Text) (m : Machine)
      → Frame locked_entries (describe H N mreq layer m)
  unfolding describe
  describe-Frame mreq layer m =
      search (frame_rules, Frame-ask, given_map-Frame, write_map-Frame) depth 16

  returned-Frame : (a : Answer) → Frame locked_entries (returned H N a)
  unfolding returned
  returned-Frame a = record { at = λ s. ground arith }

  pub settled-Frame : (a : Answer) → Frame locked_entries (settled H N a)
  unfolding settled returned
  settled-Frame a = record { at = λ s. ground arith }

  supported_platform-Frame :
      (dir platform : Text) (e : Option Text)
      → Frame locked_entries (supported_platform H N dir platform e)
  unfolding supported_platform cleaning
  supported_platform-Frame dir platform none = search (frame_rules)
  supported_platform-Frame dir platform (some e) = search (frame_rules, Frame-cleaning)

  pub launch-Frame : (m : Machine) → Frame locked_entries (launch H N m)
  unfolding launch
  launch-Frame m =
      search
        (
          frame_rules, Frame-ask, Frame-outer, Frame-cleaning, supported_platform-Frame,
          returned-Frame,
        )
        depth 12
