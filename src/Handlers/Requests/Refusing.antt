-- ===== src/Handlers/Requests/Refusing.antt =====
-- The requests that the handlers refuse without a change of either store.
use ukfaas.Prelude.{◌≡◌, refl, true, none, some, [], ◌∷◌, ◌++◌, ◌⊎◌, inl, inr}
use ukfaas.Prelude.Lists.{Option-cases}
use ukfaas.Prelude.Text.{text, text_eq}
use ukfaas.Prelude.Map.{load}
use ukfaas.Prelude.Exec.{ok}
use ukfaas.Network.Api.{NetworkController}
use ukfaas.Functions.{
  FunctionDeployment, Registry, FunctionMetaData, found_or, get_function, get_function_status,
}
use ukfaas.Functions.Updating.{update_function_unknown}
use ukfaas.Machines.Platform.{Host}
use ukfaas.Handlers.Namespaces.{Labeller, get_request_namespace, valid_namespace}
use ukfaas.Handlers.Requests.{Body, Server, update, update_missing}

module _ (R : Registry) (H : Host) (N : NetworkController) (L : Labeller) where
  update_missing-unknown :
      (req : FunctionDeployment) (s : Server R H N)
      → load req.service s.functions.function_meta_data_map ≡ none
      → update_missing R H N req s ≡ (
        ok ((400, Body.message (text "function " ++ (req.service ++ text " not found"))) ∷ []),
        s,
      )
  unfolding update_missing
  update_missing-unknown req s e = rw (update_function_unknown R req s.functions e) refl

  -- An update in a valid namespace never changes either store: for a function that the store has the
  -- reply is 404, and for another one it is 400 with the error of `UpdateFunction`.
  pub update_lem :
      (req : FunctionDeployment) (s : Server R H N)
      → valid_namespace L (get_request_namespace req.namespace) ≡ ok true
      → (((old : FunctionMetaData R) × (load req.service s.functions.function_meta_data_map
              ≡ some old))
          × (update R H N L (some (ok req)) s ≡ (
            ok ((404, Body.message (text "service " ++ (req.service ++ text " not found"))) ∷ []),
            s,
          )))
        ⊎ ((load req.service s.functions.function_meta_data_map ≡ none)
            × (update R H N L (some (ok req)) s ≡ (
              ok (
                  (400, Body.message (text "function " ++ (req.service ++ text " not found")))
                  ∷ []),
              s,
            )))
  unfolding update get_function_status get_function found_or
  update_lem req s valid =
      elim (Option-cases (load req.service s.functions.function_meta_data_map)) [
        | inl e ↦ inr (e, rw valid (rw e (update_missing-unknown req s e)))
        | inr (old, e) ↦ inl ((old, e), rw valid (rw e refl))
      ]
