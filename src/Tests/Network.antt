-- ===== src/Tests/Network.antt =====
-- The internal controller and the random balancer at concrete inputs.
use ukfaas.Prelude.{ℕ, ◌-◌, ◌≡◌, ◌≢◌, true, List, refl, ◌⊎◌, none, [], ◌∷◌, ◌++◌, arith}
use ukfaas.Prelude.Lists.{eqb, if◌then◌else◌, replicate}
use ukfaas.Prelude.Text.{Text, text, text_eq}
use ukfaas.Prelude.Map.{load, store}
use ukfaas.Prelude.Exec.{ok, err, panic}
use ukfaas.Network.Balancer.{
  new_random_load_balancer, Balancer, size, add_instance, delete_instance, next_instance,
}
use ukfaas.Network.Balancer.Laws.{others, occurrences, delete_instance_lem}
use ukfaas.Network.Controller.{
  key_eq, ip, add_service_ip, delete_service_ip, delete_service, resolve_service_endpoint,
  available_ips, is_healthy, run_health_checks, resolve_loop, watchdog_url,
}
use ukfaas.Network.Controller.Counts.{IsCounted, addresses}
use ukfaas.Network.Controller.Deleting.{delete_service_ip_absent}
use ukfaas.Network.Controller.Dropping.{delete_service_lem}
use ukfaas.Network.Controller.Resolve.{GivenUp, resolve_service_endpoint_none}
use ukfaas.Network.Controller.Available.{Counted, available_ips_lem}
use ukfaas.Network.Controller.Health.{run_health_checks-delete_service_ip}
use ukfaas.Network.Directory
use ukfaas.Network.Directory.{Call, adds_ip, deletes_ip, put, holds}
use ukfaas.Network.Controller.Refining.{view, run, run_refines, resolve_service_endpoint-holds}
use ukfaas.Tests.Fixtures.{
  env, a, b, c, pair, pair-IsSized, controller, controller-IsCounted, ill, ill-IsCounted, empty,
}

delete_instance_lem_example : delete_instance pair c ≡ (
    if eqb 2 0
    then ok pair
    else if eqb (occurrences c pair.ips) 0
    then panic
    else ok (record {
      size = 2 - 1;
      ips = others c pair.ips ++ replicate (occurrences c pair.ips - 1) [];
    }))
delete_instance_lem_example = delete_instance_lem pair c pair-IsSized

abbrev triple : Balancer
triple = record { size = 3; ips = a ∷ b ∷ c ∷ [] }

delete_service_ip_absent_example : (delete_service_ip (text "f") c controller).0 ≡ panic
unfolding load text_eq
delete_service_ip_absent_example =
    delete_service_ip_absent (text "f") c controller controller-IsCounted (λ e. cc) refl

delete_service_lem_example :
    ((delete_service (text "f") controller).0
      ≡ err (text "service " ++ (text "f" ++ text " not found")))
    × (load (text "f") (delete_service (text "f") controller).1.instances_map ≡ none)
    × (load (ip a) (delete_service (text "f") controller).1.health_check_table
        ≡ load (ip a) controller.health_check_table)
    × IsCounted (delete_service (text "f") controller).1
delete_service_lem_example = delete_service_lem (text "f") a controller controller-IsCounted

resolve_service_endpoint_none_example :
    GivenUp (text "f") ill (resolve_service_endpoint env (text "f") ill)
unfolding load is_healthy text_eq key_eq
resolve_service_endpoint_none_example =
    resolve_service_endpoint_none env (text "f") ill ill-IsCounted (refl, (refl, tt))

-- Two addresses, five tries.
five_draws : (resolve_service_endpoint env (text "f") ill).1.events ≡ 5
unfolding resolve_service_endpoint resolve_loop next_instance is_healthy load text_eq key_eq size
five_draws = refl

available_ips_lem_example :
    ((load (text "f") ill.instances_map ≡ none)
      × (available_ips (text "f") ill ≡ err (text "service " ++ (text "f" ++ text " not found"))))
    ⊎ ((count : ℕ) × (available_ips (text "f") ill ≡ ok count)
        × Counted ill (addresses (text "f") ill) count
        × ((count ≢ 0) ⊎ ((e : Text) × ((resolve_service_endpoint env (text "f") ill).0 ≡ err e))))
available_ips_lem_example = available_ips_lem env (text "f") ill ill-IsCounted

run_health_checks-delete_service_ip_example :
    (run_health_checks env (ip b ∷ []) (delete_service_ip (text "g") a empty).1).0 ≡ panic
unfolding load
run_health_checks-delete_service_ip_example =
    run_health_checks-delete_service_ip env (λ t. refl) (text "g") a b [] empty refl refl

-- Two machines start, and one of them ends.
abbrev calls : List Call
calls = adds_ip (text "f") c ∷ deletes_ip (text "f") a ∷ adds_ip (text "g") b ∷ []

abbrev one_call : List Call
one_call = adds_ip (text "g") c ∷ []

run_refines_example :
    (view (run env controller calls) ≡ Directory.run (view controller) calls)
    × IsCounted (run env controller calls)
unfolding load text_eq put holds
run_refines_example =
    run_refines env calls controller controller-IsCounted (omega arith) (tt, (refl, (tt, tt)))

resolve_service_endpoint-holds_example :
    (addr : Text) × (text "http://10.0.0.3:8123" ≡ watchdog_url addr)
    × (is_healthy (run env controller one_call) addr ≡ true)
    × (holds addr (Directory.run (view controller) one_call (text "f")) ≢ 0)
unfolding resolve_service_endpoint load store text_eq resolve_loop size next_instance is_healthy
    key_eq watchdog_url run add_service_ip add_instance new_random_load_balancer
resolve_service_endpoint-holds_example =
    resolve_service_endpoint-holds env one_call controller (text "f") (text "http://10.0.0.3:8123")
      controller-IsCounted (omega arith) (tt, tt) refl
