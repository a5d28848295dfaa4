-- ===== src/Handlers/Deployment/Building/Quiet.antt =====
-- What comes before the goroutine of `Deploy` starts none and requests no shutdown.
use ukfaas.Prelude.{ℕ, refl, Bool, true, false, Option, none, some, List, [], ◌∷◌, arith}
use ukfaas.Prelude.Text.{Text}
use ukfaas.Prelude.Exec.{Exec, modify}
use ukfaas.Prelude.Frame.{Frame, frame_rules}
use ukfaas.Functions.{Registry, FunctionDeployment, FunctionResources, Target}
use ukfaas.Machines.Platform.{Machine, Host, Volume}
use ukfaas.Handlers.Deployment.{Kraft, Site, on_packages, on_host, ask, cleaning, settled}
use ukfaas.Handlers.Deployment.Building.{
  some_package, choose_package, make_state_dir, some_target, quantity_of, memory_of, pull_target,
  volume_or_panic, mount_volume, network_service, attach_iface, supported, create, build,
}

module _ (R : Registry) (H : Host) (K : Kraft R H) where
  abbrev pub Place : Type 0
  Place = Site R H K

  -- What the goroutine and the shutdown are known by.
  abbrev pub signs : Place → List Machine × ℕ
  signs s = (s.watched, s.shutdowns)

  module _ {ℓ} {A : Type ℓ} where
    Frame-on_packages : (note : Text) (m : Exec R.World A) → Frame signs (on_packages R H K note m)
    Frame-on_packages note m = record { at = λ s. refl }

    Frame-on_host : (m : Exec H.World A) → Frame signs (on_host R H K m)
    Frame-on_host m = record { at = λ s. refl }

    Frame-ask : (m : H.World → A × H.World) → Frame signs (ask R H K m)
    Frame-ask m = record { at = λ s. refl }

    Frame-cleaning :
        (dir : Text) (m : Exec Place A) → Frame signs m → Frame signs (cleaning R H K dir m)
    unfolding cleaning
    Frame-cleaning dir m h = record { at = λ s. ground (arith, h.at s) }

  some_package-Frame : (p : Option R.Package) → Frame signs (some_package R H K p)
  unfolding some_package
  some_package-Frame none = record { at = λ s. refl }
  some_package-Frame (some p) = record { at = λ s. refl }

  choose_package-Frame : (req : FunctionDeployment) → Frame signs (choose_package R H K req)
  unfolding choose_package
  choose_package-Frame req = search (frame_rules, Frame-on_packages, some_package-Frame) depth 16

  made_dir-Frame :
      (dir : Text) → Frame signs (modify λ (s : Place). record s { dirs = dir ∷ s.dirs })
  made_dir-Frame dir = record { at = λ s. refl }

  make_state_dir-Frame : Frame signs (make_state_dir R H K)
  unfolding make_state_dir
  make_state_dir-Frame = search (frame_rules, Frame-ask, Frame-on_host, made_dir-Frame) depth 12

  some_target-Frame : (t : Option Target) → Frame signs (some_target R H K t)
  unfolding some_target
  some_target-Frame none = record { at = λ s. refl }
  some_target-Frame (some t) = record { at = λ s. refl }

  quantity_of-Frame : (t : Text) → Frame signs (quantity_of R H K t)
  unfolding quantity_of
  quantity_of-Frame [] = record { at = λ s. refl }
  quantity_of-Frame (c ∷ cs) = search (frame_rules) depth 8

  memory_of-Frame : (l : Option FunctionResources) → Frame signs (memory_of R H K l)
  unfolding memory_of
  memory_of-Frame none = record { at = λ s. refl }
  memory_of-Frame (some limits) = quantity_of-Frame limits.memory

  pull_target-Frame :
      (req : FunctionDeployment) (chosen : Text × R.Package) (place : Text × Text)
      → Frame signs (pull_target R H K req chosen place)
  unfolding pull_target
  pull_target-Frame req chosen place =
      search
        (
          frame_rules, Frame-ask, Frame-cleaning, Frame-on_packages, some_target-Frame,
          memory_of-Frame,
        )
        depth 16

  volume_or_panic-Frame :
      (dir : Text) (v : Option Volume) (e : Option Text)
      → Frame signs (volume_or_panic R H K dir v e)
  unfolding volume_or_panic
  volume_or_panic-Frame dir (some v) e = record { at = λ s. refl }
  volume_or_panic-Frame dir none none = record { at = λ s. refl }
  volume_or_panic-Frame dir none (some e) = record { at = λ s. refl }

  mount_volume-Frame : (m : Machine) → Frame signs (mount_volume R H K m)
  unfolding mount_volume
  mount_volume-Frame m =
      search (frame_rules, Frame-ask, Frame-cleaning, Frame-on_host, volume_or_panic-Frame) depth 12

  network_service-Frame : (dir : Text) (made : Bool) → Frame signs (network_service R H K dir made)
  unfolding network_service
  network_service-Frame dir true = record { at = λ s. refl }
  network_service-Frame dir false = record { at = λ s. refl }

  attach_iface-Frame : (m : Machine) → Frame signs (attach_iface R H K m)
  unfolding attach_iface
  attach_iface-Frame m =
      search (frame_rules, Frame-ask, Frame-cleaning, Frame-on_host, network_service-Frame) depth 16

  settled-Frame : (e : Option Text) (m : Option Machine) → Frame signs (settled R H K e m)
  unfolding settled
  settled-Frame none none = record { at = λ s. refl }
  settled-Frame none (some m) = record { at = λ s. refl }
  settled-Frame (some e) none = record { at = λ s. refl }
  settled-Frame (some e) (some m) = record { at = λ s. refl }

  supported-Frame : (platform : Text) (b : Bool) → Frame signs (supported R H K platform b)
  unfolding supported
  supported-Frame platform true = record { at = λ s. refl }
  supported-Frame platform false = record { at = λ s. refl }

  create-Frame : (p : Machine × Text) → Frame signs (create R H K p)
  unfolding create
  create-Frame p =
      search (frame_rules, Frame-ask, Frame-cleaning, Frame-on_host, settled-Frame, supported-Frame)
        depth 12

  pub build-Frame : (req : FunctionDeployment) → Frame signs (build R H K req)
  unfolding build
  build-Frame req =
      search
        (
          frame_rules, choose_package-Frame, make_state_dir-Frame, pull_target-Frame,
          mount_volume-Frame, attach_iface-Frame, create-Frame,
        )
        depth 16
