-- ===== src/Tests/Functions.antt =====
-- The function store at concrete inputs.
use ukfaas.Prelude.{◌≡◌, ◌≢◌, ◌⊎◌, false, none, some, [], ◌∷◌, ◌++◌}
use ukfaas.Prelude.Text.{text, text_eq}
use ukfaas.Prelude.Map.{load, store}
use ukfaas.Prelude.Exec.{ok, err}
use ukfaas.Functions.{FunctionMetaData}
use ukfaas.Functions.Add.{add_function}
use ukfaas.Functions.Update.{update_function}
use ukfaas.Functions.Adding.{Added, add_function_lem}
use ukfaas.Functions.Updating.{Replaced, kept, update_function_lem}
use ukfaas.Functions.Targets.{adds, updates, HasTargets, run, run-HasTargets}
use ukfaas.Tests.Fixtures.{registry, request, no_functions, one_function}

add_function_lem_example :
    Added registry request no_functions (add_function registry request no_functions)
add_function_lem_example = add_function_lem registry request no_functions

update_function_lem_example :
    ((load (text "f") one_function.function_meta_data_map ≡ none)
      × (update_function registry request one_function
          ≡ (err (text "function " ++ (text "f" ++ text " not found")), one_function)))
    ⊎ ((old : FunctionMetaData registry) × (load (text "f") one_function.function_meta_data_map
          ≡ some old)
        × (((old.deployment.image ≡ request.image)
              × (update_function registry request one_function ≡ (
                ok (kept registry request one_function old, false),
                record one_function {
                  function_meta_data_map =
                      store
                        (text "f")
                        (kept registry request one_function old)
                        one_function.function_meta_data_map;
                },
              )))
            ⊎ ((old.deployment.image ≢ request.image)
                × Replaced registry request one_function
                    (update_function registry request one_function))))
update_function_lem_example = update_function_lem registry request one_function

run-HasTargets_example : HasTargets registry (
    run registry one_function (updates (record request { image = text "f:2" }) ∷ adds request ∷ []))
run-HasTargets_example =
    run-HasTargets registry one_function
      (updates (record request { image = text "f:2" }) ∷ adds request ∷ []) (λ service m e q. cc)
