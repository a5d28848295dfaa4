-- ===== src/Functions/Add/Fetching.antt =====
-- What fetching a package leaves alone: it makes no entry in the maps of the store.
use ukfaas.Prelude.{refl, Option, none, some, List, [], ◌∷◌}
use ukfaas.Prelude.Text.{Text, text_eq}
use ukfaas.Prelude.Map.{Map}
use ukfaas.Prelude.Exec.{Exec, modify}
use ukfaas.Prelude.Frame.{Frame, Frame-if, frame_rules}
use ukfaas.Functions.{
  FunctionDeployment, Manifest, Target, Registry, FunctionMetaData, FunctionStore, outer, wrapped,
}
use ukfaas.Functions.Add.{
  matches, settle, try_manifest, find_package, require_package, pull_package, pulled,
  require_target, fetch,
}

module _ (R : Registry) where
  open R use {Package, World}

  abbrev pub Store : Type 0
  Store = FunctionStore R

  -- The two maps of the store.
  abbrev pub entries : Store → Map Text (FunctionMetaData R) × Map Text Package
  entries s = (s.function_meta_data_map, s.image_store)

  Frame-outer {ℓ} : {A : Type ℓ} (m : Exec World A) → Frame entries (outer R m)
  Frame-outer m = record { at = λ s. refl }

  Frame-wrapped {ℓ} :
      {A : Type ℓ} (note : Text) (m : Exec World A) → Frame entries (wrapped R note m)
  Frame-wrapped note m = record { at = λ s. refl }

  settle-Frame :
      (e : Option Text) (found : Option Package × Text) (rest : Exec Store (Option Package × Text))
      → Frame entries rest
      → Frame entries (settle R e found rest)
  unfolding settle
  settle-Frame none found rest h = record { at = λ s. refl }
  settle-Frame (some e) found rest h = h

  try_manifest-Frame :
      (ref : Text) (m : Manifest)
      (rest : Option Package × Text → Exec Store (Option Package × Text))
      → ((found : Option Package × Text) → Frame entries (rest found))
      → Frame entries (try_manifest R ref m rest)
  unfolding try_manifest
  try_manifest-Frame ref m rest h = record {
    at = λ s.
        let (p, e, w) = R.new_package ref m s.world in
        (settle-Frame e (p, m.config_digest) (rest (p, m.config_digest)) (h _)).at
          (record s { world = w });
  }

  find_package-Frame :
      (ref : Text) (ms : List Manifest) (found : Option Package × Text)
      → Frame entries (find_package R ref ms found)
  unfolding find_package
  find_package-Frame ref [] found = record { at = λ s. refl }
  find_package-Frame ref (m ∷ ms) found =
      Frame-if (matches R ref m) _ _ (try_manifest-Frame ref m _ (find_package-Frame ref ms))
        (find_package-Frame ref ms found)

  require_package-Frame : (p : Option Package) → Frame entries (require_package R p)
  unfolding require_package
  require_package-Frame none = record { at = λ s. refl }
  require_package-Frame (some p) = record { at = λ s. refl }

  mark-Frame : (dir : Text) → Frame entries (modify λ (s : Store). record s { dirs = dir ∷ s.dirs })
  mark-Frame dir = record { at = λ s. refl }

  pulled-Frame :
      (old : Option Package) (p : Package) (dir : Text) → Frame entries (pulled R old p dir)
  unfolding pulled pull_package
  pulled-Frame (some old) p dir = record { at = λ s. refl }
  pulled-Frame none p dir = search (frame_rules, Frame-outer, mark-Frame)

  require_target-Frame : (t : Option Target) → Frame entries (require_target R t)
  unfolding require_target
  require_target-Frame none = record { at = λ s. refl }
  require_target-Frame (some t) = record { at = λ s. refl }

  -- Fetching a package makes no entry, whether or not it succeeds.
  pub fetch-Frame : (req : FunctionDeployment) → Frame entries (fetch R req)
  unfolding fetch
  fetch-Frame req =
      search
        (
          frame_rules, Frame-wrapped, find_package-Frame, require_package-Frame, pulled-Frame,
          require_target-Frame,
        )
        depth 12
