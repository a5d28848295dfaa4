-- ===== src/Functions.antt =====
-- pkg/store/function.go and utils.go: the function store.
-- What it calls of containerd, the kraftkit libraries, the clock and the file system's paths is the
-- parameter `Registry`: operations on a state of their own, of which nothing is assumed.
pub mod Opening
pub mod Add
pub mod Update
pub mod Adding
pub mod Updating
pub mod Listing
pub mod Targets
use ukfaas.Prelude.{ℕ, ◌≡◌, Bool, true, false, not, Option, none, some, List, [], ◌∷◌, ◌++◌}
use ukfaas.Prelude.Lists.{if◌then◌else◌}
use ukfaas.Prelude.Text.{Text, text, ◌==◌, text_eq}
use ukfaas.Prelude.Map.{Map, load, store, remove}
use ukfaas.Prelude.Exec.{
  Outcome, ok, err, panic, blocked, Exec, ◌>>=◌, ◌>>◌, pure, fail, lift, gets, modify, wrap,
}

pub record FunctionResources : Type 0 where
  pub memory : Text
  pub cpu : Text

-- A label or annotation map stands behind a pointer, which may be nil: the number is its address.
pub record FunctionDeployment : Type 0 where
  pub service : Text
  pub image : Text
  pub namespace : Text
  pub env_process : Text
  pub env_vars : Map Text Text
  pub constraints : List Text
  pub secrets : List Text
  pub labels : Option ℕ
  pub annotations : Option ℕ
  pub limits : Option FunctionResources
  pub requests : Option FunctionResources

pub record FunctionStatus : Type 0 where
  pub name : Text
  pub image : Text
  pub namespace : Text
  pub env_process : Text
  pub env_vars : Map Text Text
  pub constraints : List Text
  pub secrets : List Text
  pub labels : Option ℕ
  pub annotations : Option ℕ
  pub read_only_root_filesystem : Bool
  pub limits : Option FunctionResources
  pub requests : Option FunctionResources
  pub created_at : ℕ
  pub replicas : ℕ
  pub available_replicas : ℕ

pub record Manifest : Type 0 where
  pub annotations : Map Text Text
  pub config_digest : Text

-- What the store uses of `target.Target`.
pub record Target : Type 0 where
  pub architecture : Text
  pub platform : Text
  pub kernel : Text
  pub format : Text

pub record Registry : Type 1 where
  pub Package : Type 0
  pub World : Type 0
  pub parse_reference : Text → Outcome Text
  pub list_manifests : Exec World (List Manifest)
  pub new_package : Text → Manifest → World → Option Package × Option Text × World
  pub pull : Package → Text → Text → Exec World (Unit {0})
  pub as_target : Package → Option Target
  pub detect : Exec World Text
  pub mkdir_all : Text → Exec World (Unit {0})
  pub join : Text → Text → Text
  pub now : World → ℕ × World

abbrev pub zero_time : ℕ
zero_time = 0

module _ (R : Registry) where
  open R use {Package, World}

  pub record FunctionMetaData : Type 0 where
    pub created_at : ℕ
    pub deployment : FunctionDeployment
    pub pack : Package
    pub storage_dir : Text

  -- `dirs` holds the directories that the store has made.
  pub record FunctionStore : Type 0 where
    pub image_store : Map Text Package
    pub function_meta_data_map : Map Text FunctionMetaData
    pub dirs : List Text
    pub world : World

  -- A call to the outside.
  abbrev pub outer {ℓ} : {A : Type ℓ} → Exec World A → Exec FunctionStore A
  outer m s = let (r, w) = m s.world in (r, record s { world = w })

  abbrev pub wrapped {ℓ} : {A : Type ℓ} → Text → Exec World A → Exec FunctionStore A
  wrapped note m s = let (r, w) = m s.world in (wrap note r, record s { world = w })

  unfoldable pub is_some {ℓ} : {A : Type ℓ} → Option A → Bool
  is_some none = false
  is_some (some a) = true

  unfoldable pub function_exists : Text → FunctionStore → Bool
  unfolding is_some
  function_exists service s = is_some (load service s.function_meta_data_map)

  unfoldable pub delete_function : Text → Exec FunctionStore (Unit {0})
  delete_function service =
      modify λ s. record s { function_meta_data_map = remove service s.function_meta_data_map }

  abbrev not_found : Text → Text
  not_found service = text "function " ++ (service ++ text " not found")

  unfoldable pub found_or : Text → Option FunctionMetaData → Outcome FunctionMetaData
  found_or service none = err (not_found service)
  found_or service (some meta) = ok meta

  unfoldable pub get_function : Text → Exec FunctionStore FunctionMetaData
  unfolding found_or
  get_function service s = (found_or service (load service s.function_meta_data_map), s)

  -- The fields that both listings copy.
  abbrev pub status_of : Text → ℕ → FunctionMetaData → FunctionStatus
  status_of name created meta =
      let d = meta.deployment in
      record {
        name = name;
        image = d.image;
        namespace = d.namespace;
        env_process = d.env_process;
        env_vars = d.env_vars;
        constraints = d.constraints;
        secrets = d.secrets;
        labels = d.labels;
        annotations = d.annotations;
        read_only_root_filesystem = true;
        limits = d.limits;
        requests = d.requests;
        created_at = created;
        replicas = 0;
        available_replicas = 0;
      }

  statuses : Map Text FunctionMetaData → List FunctionStatus
  statuses [] = []
  statuses ((name, meta) ∷ m) = status_of name zero_time meta ∷ statuses m

  -- The range appends a status for each entry, without its time.
  unfoldable pub list_functions : FunctionStore → List FunctionStatus
  unfolding statuses
  list_functions s = statuses s.function_meta_data_map

  unfoldable pub get_function_status : Text → Exec FunctionStore FunctionStatus
  unfolding get_function
  get_function_status service = do
    meta ← get_function service
    pure (status_of service meta.created_at meta)
