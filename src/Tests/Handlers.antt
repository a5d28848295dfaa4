-- ===== src/Tests/Handlers.antt =====
-- The handlers at concrete inputs.
use ukfaas.Prelude.{List, none, ◌≡◌, refl, ◌⊎◌, true, ◌&&◌, ◌||◌, none, some, [], ◌∷◌, ◌++◌, arith}
use ukfaas.Prelude.Text.{text, ◌==◌, text_eq}
use ukfaas.Prelude.Map.{load}
use ukfaas.Prelude.Exec.{ok}
use ukfaas.Network.Balancer.{size, next_instance}
use ukfaas.Network.Controller.{
  is_healthy, key_eq, resolve_loop, watchdog_url, resolve_service_endpoint,
}
use ukfaas.Network.Controller.Counts.{addresses}
use ukfaas.Network.Controller.Resolve.{Serves}
use ukfaas.Functions.{FunctionStatus, zero_time, FunctionMetaData, get_function, found_or}
use ukfaas.Machines.Platform.{is_running}
use ukfaas.Machines.{get_replicas, count_serving, serves, service_of, read_map, map_at}
use ukfaas.Handlers.Namespaces.{
  default_function_namespace, get_request_namespace, valid_namespace, find_namespace,
  list_namespaces,
}
use ukfaas.Handlers.Namespaces.Listing.{any_carries, any_readable, list_namespaces_lem}
use ukfaas.Functions.Listing.{find_status}
use ukfaas.Handlers.Answers.Agreeing.{read-function_status}
use ukfaas.Handlers.Answers.{read, function_status, has_dot, actual_function_name, resolve}
use ukfaas.Handlers.Requests.{
  nothing, Body, DeleteFunctionRequest, ScaleServiceRequest, Server, validate_secrets, deploy,
  delete, scale, update,
}
use ukfaas.Handlers.Requests.Deploying.{Deployed, deploy_lem}
use ukfaas.Handlers.Requests.Refusing.{update_lem}
use ukfaas.Handlers.Answers.Resolving.{resolve-Serves}
use ukfaas.Handlers.Requests.Stopping.{Deleted, IsSilent, Scaled, delete_lem, scale_lem}
use ukfaas.Tests.Fixtures.{
  registry, request, host, host-StopsMachines, env, network, controller, controller-IsCounted,
  no_machines, no_functions, one_machine-IsKeyed, labeller, files, server,
}

default_valid : valid_namespace labeller (get_request_namespace []) ≡ ok true
unfolding valid_namespace get_request_namespace text_eq
default_valid = refl

list_namespaces_lem_example : find_namespace (text "dev") (list_namespaces labeller) ≡ (
    any_carries labeller (text "dev") (text "dev" ∷ text "other" ∷ [])
    || ((default_function_namespace == text "dev")
        && any_readable labeller (text "dev" ∷ text "other" ∷ [])))
list_namespaces_lem_example =
    list_namespaces_lem labeller (text "dev") (text "dev" ∷ text "other" ∷ []) refl

abbrev fresh : Server registry host network
fresh = record { functions = no_functions; machines = no_machines }

deploy_lem_example :
    Deployed registry host network request fresh
      (deploy registry host network labeller files (text "/secrets") (some (ok request)) fresh)
unfolding validate_secrets
deploy_lem_example =
    deploy_lem registry host network labeller files (text "/secrets") request fresh default_valid
      refl refl

update_lem_example :
    (((old : FunctionMetaData registry) × (load (text "f") server.functions.function_meta_data_map
          ≡ some old))
      × (update registry host network labeller (some (ok request)) server ≡ (
        ok ((404, Body.message (text "service " ++ (text "f" ++ text " not found"))) ∷ []),
        server,
      )))
    ⊎ ((load (text "f") server.functions.function_meta_data_map ≡ none)
        × (update registry host network labeller (some (ok request)) server ≡ (
          ok ((400, Body.message (text "function " ++ (text "f" ++ text " not found"))) ∷ []),
          server,
        )))
update_lem_example = update_lem registry host network labeller request server default_valid

abbrev removal : DeleteFunctionRequest
removal = record { function_name = text "f"; namespace = [] }

delete_lem_example :
    ((load (text "f") server.functions.function_meta_data_map ≡ none)
      × (delete registry host network labeller (some (ok removal)) server ≡ (
        ok ((404, Body.message (text "service " ++ (text "f" ++ text " not found"))) ∷ []),
        server,
      )))
    ⊎ (((old : FunctionMetaData registry) × (load (text "f") server.functions.function_meta_data_map
            ≡ some old))
        × Deleted registry host network
            (text "f")
            server
            (delete registry host network labeller (some (ok removal)) server))
delete_lem_example =
    delete_lem registry host network host-StopsMachines labeller removal server default_valid
      one_machine-IsKeyed

abbrev to_zero : ScaleServiceRequest
to_zero = record { service_name = text "f"; replicas = 0; namespace = [] }

scale_lem_example :
    ((load (text "f") server.functions.function_meta_data_map ≡ none)
      × (scale registry host network labeller (some (ok to_zero)) server ≡ (
        ok (
            (
              404,
              Body.message (
                  text "service "
                  ++ (text "f"
                      ++ (text " not found : "
                          ++ (text "function " ++ (text "f" ++ text " not found"))))),
            )
            ∷ []),
        server,
      )))
    ⊎ (((old : FunctionMetaData registry) × (load (text "f") server.functions.function_meta_data_map
            ≡ some old))
        × IsSilent registry host network
            (scale registry host network labeller (some (ok to_zero)) server).0
        × Scaled registry host network to_zero server
            (scale registry host network labeller (some (ok to_zero)) server))
scale_lem_example =
    scale_lem registry host network host-StopsMachines labeller to_zero server default_valid
      one_machine-IsKeyed

one_replica : get_replicas host network (text "f") server.machines ≡ 1
unfolding get_replicas count_serving serves service_of read_map map_at load text_eq is_running
one_replica = refl

resolve-Serves_example :
    Serves controller
      (addresses (actual_function_name (text "f")) controller)
      (text "http://10.0.0.2:8123")
unfolding resolve actual_function_name has_dot get_function found_or load text_eq get_replicas
    count_serving serves service_of read_map map_at is_running resolve_service_endpoint resolve_loop
    size next_instance is_healthy key_eq watchdog_url
resolve-Serves_example =
    resolve-Serves registry host env (text "f") (text "http://10.0.0.2:8123") server
      controller-IsCounted (omega (arith, one_replica)) refl

read-function_status_example :
    (fs : List FunctionStatus) × (read registry host network labeller [] server
      ≡ (ok ((200, Body.functions fs) ∷ []), server))
    × (((function_status registry host network labeller [] (text "f") server
            ≡ (ok ((404, nothing) ∷ []), server))
          × (find_status (text "f") fs ≡ none))
        ⊎ ((f : FunctionStatus) × (function_status registry host network labeller []
                (text "f")
                server
              ≡ (ok ((200, Body.function f) ∷ []), server))
            × (find_status (text "f") fs ≡ some (record f { created_at = zero_time }))))
unfolding load
read-function_status_example =
    read-function_status registry host network labeller [] (text "f") server default_valid
      (refl, tt)
