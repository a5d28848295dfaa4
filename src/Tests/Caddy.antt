-- ===== src/Tests/Caddy.antt =====
-- The Caddy controller at concrete inputs.
use ukfaas.Prelude.{◌≡◌, ◌≢◌, refl, true, [], ◌∷◌}
use ukfaas.Prelude.Text.{text, text_eq}
use ukfaas.Prelude.Map.{load}
use ukfaas.Prelude.Exec.{ok, err}
use ukfaas.Network.Caddy.{
  Gateway, CaddyController, is_word, take_word, strip_prefix, word_after, or_later, name_or,
  get_service_name, has_slash, url_to_service, service_to_url, available_ips,
}
use ukfaas.Network.Caddy.Names.{url_to_service-service_to_url}
use ukfaas.Network.Directory
use ukfaas.Network.Caddy.Refining.{view, run_refines_hosts}
use ukfaas.Network.Directory.{adds_ip, deletes_ip}
use ukfaas.Network.Caddy.Cache.{run, run-AllServed}
use ukfaas.Tests.Fixtures.{a}

url_to_service-service_to_url_example : url_to_service (service_to_url (text "py_1")) ≡ text "py_1"
unfolding is_word
url_to_service-service_to_url_example =
    url_to_service-service_to_url (text "py_1") (λ e. cc) (refl, (refl, (refl, (refl, tt))))

-- A name with a dash is cut off at it.
dash_cut : url_to_service (service_to_url (text "py-1")) ≡ text "py"
unfolding url_to_service service_to_url has_slash get_service_name strip_prefix word_after or_later
    name_or take_word is_word
dash_cut = refl

-- A server that refuses every change.
abbrev pub gateway : Gateway
gateway = record {
  World = Unit {0};
  get = λ w. (ok (200, ok []), w);
  patch = λ routes w. (err (text "refused"), w);
  parses = λ url. true;
}

abbrev no_services : CaddyController gateway
no_services = record { service_ip_cache = []; permanent_routes = []; world = tt }

abbrev one_service : CaddyController gateway
one_service = record no_services { service_ip_cache = (text "f", text "n:8123" ∷ []) ∷ [] }

run-AllServed_example :
    available_ips gateway
      (text "f")
      (run gateway no_services (adds_ip (text "f") a ∷ deletes_ip (text "f") a ∷ []))
    ≢ ok 0
unfolding load
run-AllServed_example =
    run-AllServed gateway no_services (adds_ip (text "f") a ∷ deletes_ip (text "f") a ∷ [])
      (text "f") (λ service e. cc)

run_refines_hosts_example :
    view gateway (run gateway one_service (adds_ip (text "f") a ∷ deletes_ip (text "f") a ∷ []))
    ≡ Directory.run (view gateway one_service) (adds_ip (text "f") a ∷ deletes_ip (text "f") a ∷ [])
run_refines_hosts_example =
    run_refines_hosts gateway (adds_ip (text "f") a ∷ deletes_ip (text "f") a ∷ []) one_service
      ((refl, (refl, (refl, (refl, (refl, (refl, (refl, (refl, tt)))))))), (tt, tt))
