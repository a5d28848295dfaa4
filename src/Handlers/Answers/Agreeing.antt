-- ===== src/Handlers/Answers/Agreeing.antt =====
-- The list of the functions against the status of each.
use mathlib.Core.Option
use ukfaas.Prelude.{◌≡◌, refl, ap, ◌∙◌, ◌⊎◌, inl, inr, true, none, some, List, [], ◌∷◌, map, arith}
use ukfaas.Prelude.Lists.{Option-cases}
use ukfaas.Prelude.Text.{Text, text_eq}
use ukfaas.Prelude.Map.{load, NodupKeys}
use ukfaas.Prelude.Exec.{ok}
use ukfaas.Network.Api.{NetworkController}
use ukfaas.Functions.{
  FunctionStatus, Registry, zero_time, status_of, list_functions, get_function_status, get_function,
  found_or,
}
use ukfaas.Functions.Listing.{find_status, list_functions_lem}
use ukfaas.Machines.Platform.{Host}
use ukfaas.Machines.{MachineStore}
use ukfaas.Handlers.Namespaces.{Labeller, get_request_namespace, valid_namespace}
use ukfaas.Handlers.Requests.{Body, nothing, Server}
use ukfaas.Handlers.Answers.{counted, read, function_status}

module _ (R : Registry) (H : Host) (N : NetworkController) where
  find_status-map :
      (service : Text) (t : MachineStore H N) (fs : List FunctionStatus)
      → find_status service (map (counted R H N t) fs)
        ≡ Option.map (counted R H N t) (find_status service fs)
  find_status-map service t [] = refl
  find_status-map service t (f ∷ fs) = ground (arith, find_status-map service t fs)

  -- For a valid namespace and distinct names, the handler of the list answers 200 with a list. The
  -- handler of the status answers 404 for a name that is not in it, and for the others 200 with what
  -- the list has, but for the time of creation. Neither changes a store.
  pub read-function_status :
      (L : Labeller) (namespace service : Text) (s : Server R H N)
      → valid_namespace L (get_request_namespace namespace) ≡ ok true
      → NodupKeys s.functions.function_meta_data_map
      → (fs : List FunctionStatus) × (read R H N L namespace s
          ≡ (ok ((200, Body.functions fs) ∷ []), s))
        × (((function_status R H N L namespace service s ≡ (ok ((404, nothing) ∷ []), s))
              × (find_status service fs ≡ none))
            ⊎ ((f : FunctionStatus) × (function_status R H N L namespace service s
                  ≡ (ok ((200, Body.function f) ∷ []), s))
                × (find_status service fs ≡ some (record f { created_at = zero_time }))))
  unfolding read function_status get_function_status get_function found_or
  read-function_status L namespace service s valid distinct =
      let fs = list_functions R s.functions in
      let listed =
        find_status-map service s.machines fs
        ∙ ap (Option.map (counted R H N s.machines))
            (list_functions_lem R s.functions service distinct).0 in
      (
        map (counted R H N s.machines) fs,
        rw valid refl,
        elim (Option-cases (load service s.functions.function_meta_data_map)) [
          | inl e ↦ inl (rw valid (rw e refl), listed ∙ rw e refl)
          | inr (meta, e) ↦ inr (
            counted R H N s.machines (status_of R service meta.created_at meta),
            rw valid (rw e refl),
            listed ∙ rw e refl,
          )
        ],
      )
