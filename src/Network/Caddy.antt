-- ===== src/Network/Caddy.antt =====
-- pkg/network/caddy: the controller that keeps the addresses of each service and tells them to a
-- Caddy server. Each operation holds the lock of the controller from its first line to its return, so
-- that operations do not overlap.
pub mod Names
pub mod Cache
pub mod Refining
use ukfaas.Prelude.{
  ℕ, ◌+◌, ◌≡◌, Bool, true, false, ◌&&◌, ◌||◌, not, Option, none, some, List, [], ◌∷◌, ◌++◌,
}
use ukfaas.Prelude.Lists.{eqb, leb, if◌then◌else◌, length}
use ukfaas.Prelude.Text.{Text, text, ◌==◌, text_eq}
use ukfaas.Prelude.Map.{Map, load, store, remove}
use ukfaas.Prelude.Exec.{Outcome, ok, err, panic, blocked, Exec, ◌>>=◌, ◌>>◌, pure, fail, modify}

pub record HealthChecks : Type 0 where
  pub expect_status : ℕ
  pub interval : ℕ
  pub timeout : ℕ
  pub uri : Text

pub record HandlerConfig : Type 0 where
  pub handler : Text
  pub health_check : HealthChecks
  pub policy : Text
  pub try_duration : ℕ
  pub upstreams : List Text

pub record RouteConfig : Type 0 where
  pub handle : List HandlerConfig
  pub match_paths : List (List Text)

abbrev pub default_health_checks : HealthChecks
default_health_checks = record {
  expect_status = 200;
  interval = 10000000000;
  timeout = 30000000000;
  uri = text "/";
}

-- The Caddy server: a GET of its routes, with the status and what `json.Unmarshal` makes of the
-- body, and a PATCH of them, whose status is not looked at; and whether `url.Parse` accepts a text.
pub record Gateway : Type 1 where
  pub World : Type 0
  pub get : Exec World (ℕ × Outcome (List RouteConfig))
  pub patch : List RouteConfig → Exec World (Unit {0})
  pub parses : Text → Bool

-- `[0-9A-Za-z_]`
unfoldable pub is_word : ℕ → Bool
is_word c =
    (leb 48 c && leb c 57) || ((leb 65 c && leb c 90) || ((leb 97 c && leb c 122) || eqb c 95))

unfoldable pub take_word : Text → Text
take_word [] = []
take_word (c ∷ s) = let rest = c ∷ take_word s in if is_word c then rest else []

-- What follows the prefix, if the text begins with it.
unfoldable pub strip_prefix : Text → Text → Option Text
strip_prefix [] s = some s
strip_prefix (p ∷ prefix) [] = none
strip_prefix (p ∷ prefix) (c ∷ s) =
    let rest = strip_prefix prefix s in if eqb p c then rest else none

abbrev pub function_prefix : Text
function_prefix = text "/function/"

-- The group of the first match of `/function/(\w+)`: a match needs a word after the prefix.
unfoldable pub or_later : Text → Option Text → Option Text
or_later [] later = later
or_later (c ∷ word) later = some (c ∷ word)

unfoldable pub word_after : Option Text → Option Text → Option Text
unfolding or_later
word_after none later = later
word_after (some s) later = or_later (take_word s) later

unfoldable pub get_service_name : Text → Option Text
get_service_name [] = none
get_service_name (c ∷ s) =
    let later = get_service_name s in word_after (strip_prefix function_prefix (c ∷ s)) later

unfoldable pub name_or : Text → Option Text → Text
name_or url none = url
name_or url (some name) = name

unfoldable pub url_to_service : Text → Text
url_to_service url = name_or url (get_service_name url)

unfoldable pub has_slash : Text → Bool
has_slash [] = false
has_slash (c ∷ s) = let rest = has_slash s in if eqb c 47 then true else rest

unfoldable pub service_to_url : Text → Text
service_to_url service = if has_slash service then service else function_prefix ++ service

-- `strings.Split(ip, ":")[0]`
unfoldable pub host_of : Text → Text
host_of [] = []
host_of (c ∷ s) = let rest = c ∷ host_of s in if eqb c 58 then [] else rest

unfoldable pub without_host : Text → List Text → List Text
without_host ip [] = []
without_host ip (url ∷ urls) =
    let rest = without_host ip urls in if host_of url == ip then rest else url ∷ rest

unfoldable pub watchdog_address : Text → Text
watchdog_address ip = ip ++ text ":8123"

unfoldable pub with_url : Option (List Text) → Text → List Text
with_url none url = url ∷ []
with_url (some urls) url = urls ++ (url ∷ [])

route_of : Text → List Text → RouteConfig
route_of service urls = record {
  handle =
      record {
        handler = text "reverse_proxy";
        health_check = default_health_checks;
        policy = text "first";
        try_duration = 1000000000;
        upstreams = urls;
      }
      ∷ [];
  match_paths = (service_to_url service ∷ []) ∷ [];
}

routes_of : Map Text (List Text) → List RouteConfig
unfolding route_of
routes_of [] = []
routes_of ((service, urls) ∷ cache) = route_of service urls ∷ routes_of cache

unfoldable pub keep_or_drop : Text → List Text → Map Text (List Text) → Map Text (List Text)
keep_or_drop service [] cache = remove service cache
keep_or_drop service (url ∷ urls) cache = store service (url ∷ urls) cache

module _ (G : Gateway) where
  pub record CaddyController : Type 0 where
    pub service_ip_cache : Map Text (List Text)
    pub permanent_routes : List RouteConfig
    pub world : G.World

  -- `GetUKFaaSRoutes`: a status other than 200 gives no routes and a nil error.
  unfoldable pub get_ukfaas_routes : Exec G.World (List RouteConfig)
  get_ukfaas_routes = do
    (status, body) ← G.get
    if eqb status 200 then (λ w. (body, w)) else pure []

  unfoldable pub with_routes : List RouteConfig → G.World → Outcome CaddyController × G.World
  with_routes routes w =
      (ok (record { service_ip_cache = []; permanent_routes = routes; world = w }), w)

  unfoldable pub new_caddy_controller : Exec G.World CaddyController
  new_caddy_controller = do routes ← get_ukfaas_routes; with_routes routes

  unfoldable pub get_config : CaddyController → List RouteConfig
  unfolding routes_of
  get_config c = c.permanent_routes ++ routes_of c.service_ip_cache

  unfoldable pub reload_config : Exec CaddyController (Unit {0})
  reload_config c = let (r, w) = G.patch (get_config c) c.world in (r, record c { world = w })

  unfoldable pub add_service_ip : Text → Text → Exec CaddyController (Unit {0})
  add_service_ip service ip = do
    modify λ c. record c {
      service_ip_cache =
          store service (with_url (load service c.service_ip_cache) (watchdog_address ip))
            c.service_ip_cache;
    }
    reload_config

  unfoldable pub delete_known : Text → Option (List Text) → Exec CaddyController (Unit {0})
  delete_known service none = fail (text "not found")
  delete_known service (some urls) = do
    modify λ c. record c { service_ip_cache = remove service c.service_ip_cache }
    reload_config

  unfoldable pub delete_service : Text → Exec CaddyController (Unit {0})
  delete_service service c = delete_known service (load service c.service_ip_cache) c

  unfoldable pub delete_from : Text → Text → Option (List Text) → Exec CaddyController (Unit {0})
  delete_from service ip none = fail (text "not found")
  delete_from service ip (some urls) = do
    modify λ c. record c {
      service_ip_cache = keep_or_drop service (without_host ip urls) c.service_ip_cache;
    }
    reload_config

  unfoldable pub delete_service_ip : Text → Text → Exec CaddyController (Unit {0})
  delete_service_ip service ip c = delete_from service ip (load service c.service_ip_cache) c

  abbrev pub gateway_url : Text → Text
  gateway_url service = text "http://localhost:80" ++ service_to_url service

  unfoldable pub resolve_service_endpoint : Text → CaddyController → Outcome Text
  resolve_service_endpoint service c = elim (load service c.service_ip_cache) [
    | none ↦ err (text "service not found : " ++ service)
    | some urls ↦
        if G.parses (gateway_url service)
        then ok (gateway_url service)
        else err (text "parse error")
  ]

  unfoldable pub available_from : Text → Option (List Text) → Outcome ℕ
  available_from service none = err (text "service not found : " ++ service)
  available_from service (some urls) = ok (length urls)

  unfoldable pub available_ips : Text → CaddyController → Outcome ℕ
  available_ips service c = available_from service (load service c.service_ip_cache)
