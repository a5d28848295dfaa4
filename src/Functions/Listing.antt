-- ===== src/Functions/Listing.antt =====
-- `ListFunctions` against `GetFunctionStatus`.
use mathlib.Core.Option
use ukfaas.Prelude.{◌≡◌, refl, Option, none, some, List, [], ◌∷◌, arith}
use ukfaas.Prelude.Lists.{if◌then◌else◌}
use ukfaas.Prelude.Text.{Text, ◌==◌, text_eq}
use ukfaas.Prelude.Map.{Map, load, NodupKeys}
use ukfaas.Prelude.Exec.{Outcome, ok}
use ukfaas.Functions.{
  FunctionStatus, Registry, FunctionMetaData, FunctionStore, zero_time, status_of, statuses,
  list_functions, get_function, get_function_status,
}

-- The first status of that name.
abbrev pub find_status : Text → List FunctionStatus → Option FunctionStatus
find_status service [] = none
find_status service (f ∷ fs) = if f.name == service then some f else find_status service fs

-- No two statuses have one name.
abbrev pub NodupNames : List FunctionStatus → Type 0
NodupNames [] = Unit {0}
NodupNames (f ∷ fs) = (find_status f.name fs ≡ none) × NodupNames fs

-- The outcome of `GetFunctionStatus`, without its time of creation.
abbrev pub untimed : Outcome FunctionStatus → Option FunctionStatus
untimed (ok f) = some (record f { created_at = zero_time })
untimed _ = none

module _ (R : Registry) where
  find_status-statuses :
      (service : Text) (m : Map Text (FunctionMetaData R))
      → find_status service (statuses R m)
        ≡ Option.map (status_of R service zero_time) (load service m)
  unfolding statuses load
  find_status-statuses service [] = refl
  find_status-statuses service ((name, meta) ∷ m) = ground (arith, find_status-statuses service m)

  statuses-NodupNames :
      (m : Map Text (FunctionMetaData R)) → NodupKeys m → NodupNames (statuses R m)
  unfolding statuses
  statuses-NodupNames [] u = tt
  statuses-NodupNames ((name, meta) ∷ m) u =
      (ground (arith, find_status-statuses name m, u.0), statuses-NodupNames m u.1)

  -- The list has a status for a service exactly when asking for that service's status succeeds, and
  -- then they agree but for the time of creation. No name is listed twice.
  pub list_functions_lem :
      (s : FunctionStore R) (service : Text)
      → NodupKeys s.function_meta_data_map
      → (find_status service (list_functions R s) ≡ untimed (get_function_status R service s).0)
        × NodupNames (list_functions R s)
  unfolding list_functions get_function_status get_function
  list_functions_lem s service u = (
    ground (arith, find_status-statuses service s.function_meta_data_map),
    statuses-NodupNames s.function_meta_data_map u,
  )
