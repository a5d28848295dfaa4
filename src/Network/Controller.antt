-- ===== src/Network/Controller.antt =====
-- pkg/network/internal/controller.go and controller_options.go: the internal network controller.
-- A type assertion on an entry of a map succeeds, since each map holds one type of values.
pub mod Counts
pub mod Adding
pub mod Deleting
pub mod Dropping
pub mod Resolve
pub mod Available
pub mod Health
pub mod Refining
use ukfaas.Prelude.{
  ℕ, zero, suc, ◌+◌, ◌-◌, ◌/◌, ◌%◌, ◌≡◌, refl, ap, Bool, true, false, ◌||◌, Option, none, some,
  List, [], ◌∷◌, ◌++◌, dite, ℕ_discrete,
}
use ukfaas.Prelude.Lists.{ltb, eqb, if◌then◌else◌, length}
use ukfaas.Prelude.Text.{Text, text, Eq, ◌==◌, text_eq}
use ukfaas.Prelude.Map.{Map, load, store, remove}
use ukfaas.Prelude.Exec.{
  Outcome, ok, err, panic, Exec, ◌>>=◌, ◌>>◌, pure, fail, crash, lift, gets, modify,
}
use ukfaas.Network.Balancer.{
  Balancer, Constructor, u64_mod, new_random_load_balancer, add_instance, delete_instance,
  next_instance, get_ips, size,
}

-- A key of `healthCheckTable`, which is a `sync.Map` with keys of any type.
pub data Key : Type 0 where
  ip : Text → Key
  index : ℕ → Key

key_dec : Discrete Key
unfolding text_eq ℕ_discrete
key_dec (ip a) (ip b) = dite (text_eq.dec a b) (λ p. yes (ap ip p)) (λ n. no (λ e. n (cc)))
key_dec (ip a) (index j) = no (λ e. cc)
key_dec (index i) (ip b) = no (λ e. cc)
key_dec (index i) (index j) = dite (ℕ_discrete i j) (λ p. yes (ap index p)) (λ n. no (λ e. n (cc)))

instance unfoldable pub key_eq : Eq Key
unfolding key_dec
key_eq = record { dec = key_dec }

-- What the controller asks of its surroundings, by the number of the question: the status of a GET
-- (`none` if there is no answer), the next random number, whether `url.Parse` accepts a text, and
-- whether the context has been cancelled.
pub record Env : Type 0 where
  pub status : ℕ → Text → Option ℕ
  pub draw : ℕ → ℕ
  pub parses : Text → Bool
  pub cancelled : ℕ → Bool

pub record Controller : Type 0 where
  pub instance_count : ℕ
  pub health_check_table : Map Key Bool
  pub instances_map : Map Text Balancer
  pub default_load_balancer : Option Constructor
  pub events : ℕ

-- An argument of `NewInternalNetworkContoller`: an option, or a value of another type.
pub data Opt : Type 0 where
  option : (Controller → Outcome Controller) → Opt
  other : Opt

apply_options : List Opt → Controller → Outcome Controller
apply_options [] n = ok n
apply_options (other ∷ opts) n = err (text "invalid InternalNetworkController option")
apply_options (option f ∷ opts) n = elim (f n) [
  | ok n' ↦ apply_options opts n'
  | err e ↦ err e
  | panic ↦ panic
  | Outcome.blocked ↦ Outcome.blocked
]

abbrev pub blank : Controller
blank = record {
  instance_count = 0;
  health_check_table = [];
  instances_map = [];
  default_load_balancer = none;
  events = 0;
}

or_random : Option Constructor → Constructor
or_random none = new_random_load_balancer
or_random (some c) = c

with_default : Outcome Controller → Outcome Controller
unfolding or_random
with_default (ok n) =
    ok (record n { default_load_balancer = some (or_random n.default_load_balancer) })
with_default (err e) = err e
with_default panic = panic
with_default Outcome.blocked = Outcome.blocked

unfoldable pub new_internal_network_controller : List Opt → Outcome Controller
unfolding apply_options with_default
new_internal_network_controller opts = with_default (apply_options opts blank)

-- `WithLoadBalancer`; a type that is not registered gives nil.
unfoldable pub with_load_balancer : Map Text Constructor → Text → Opt
with_load_balancer registry lb_type =
    option (λ n. ok (record n { default_load_balancer = load lb_type registry }))

-- `fmt.Sprintf("http://%s:%d", ip, pkg.WatchdogPort)`
unfoldable pub watchdog_url : Text → Text
watchdog_url addr = text "http://" ++ (addr ++ text ":8123")

healthy : Option ℕ → Bool
healthy none = false
healthy (some code) = eqb code 200 || eqb code 400

-- `checkHealth`, as the answer to the question of this number.
unfoldable pub check_health : Env → ℕ → Text → Text → Bool
unfolding healthy watchdog_url
check_health env t addr health_path = healthy (env.status t (watchdog_url addr ++ health_path))

-- The call of the constructor panics if it is nil.
construct : Option Constructor → Outcome Balancer
construct none = panic
construct (some c) = c

balancer_for : Controller → Text → Outcome Balancer
unfolding construct
balancer_for n service = elim (load service n.instances_map) [
  | some lb ↦ ok lb
  | none ↦ construct n.default_load_balancer
]

unfoldable pub add_service_ip : Env → Text → Text → Exec Controller (Unit {0})
unfolding balancer_for check_health
add_service_ip env service addr = do
  lb ← (λ n. (balancer_for n service, n))
  updated ← lift (add_instance lb addr)
  modify λ n. record n {
    health_check_table = store (ip addr) (check_health env n.events addr []) n.health_check_table;
    instances_map = store service updated n.instances_map;
    instance_count = (n.instance_count + 1) % u64_mod;
    events = n.events + 1;
  }

-- The update of the balancer, if the service has one.
delete_from : Text → Text → Option Balancer → Exec Controller (Unit {0})
delete_from service addr none = pure tt
delete_from service addr (some lb) = do
  updated ← lift (delete_instance lb addr)
  modify λ n. record n { instances_map = store service updated n.instances_map }

unfoldable pub delete_service_ip : Text → Text → Exec Controller (Unit {0})
unfolding delete_from
delete_service_ip service addr = do
  lb ← gets λ n. load service n.instances_map
  delete_from service addr lb
  modify λ n. record n {
    health_check_table = remove (ip addr) n.health_check_table;
    instance_count = (n.instance_count + (u64_mod - 1)) % u64_mod;
  }

-- `for ip := range ips` binds the index of each address: that is what is deleted.
forget : ℕ → List Text → Controller → Controller
forget i [] n = n
forget i (_ ∷ rest) n = forget (i + 1) rest (record n {
  health_check_table = remove (index i) n.health_check_table;
  instance_count = (n.instance_count + (u64_mod - 1)) % u64_mod;
})

drop_service : Text → Option Balancer → Controller → Controller
unfolding forget
drop_service service none n = n
drop_service service (some lb) n =
    forget 0 (get_ips lb) (record n { instances_map = remove service n.instances_map })

-- The last line is reached whether or not there was such a service.
unfoldable pub delete_service : Text → Exec Controller (Unit {0})
unfolding drop_service
delete_service service = do
  modify λ n. drop_service service (load service n.instances_map) n
  fail (text "service " ++ (service ++ text " not found"))

is_true : Option Bool → Bool
is_true none = false
is_true (some b) = b

unfoldable pub is_healthy : Controller → Text → Bool
unfolding is_true
is_healthy n addr = is_true (load (ip addr) n.health_check_table)

parsed : Bool → Text → Outcome Text
parsed true url = ok url
parsed false url = err (text "parse error")

-- What one try does with the address drawn; `again` is the rest of the loop.
try_address : Env → Outcome Text → Exec Controller Text → Exec Controller Text
unfolding parsed
try_address env (ok addr) again n =
    if is_healthy n addr
    then (parsed (env.parses (watchdog_url addr)) (watchdog_url addr), n)
    else again n
try_address env (err e) again n = (err e, n)
try_address env panic again n = (panic, n)
try_address env Outcome.blocked again n = (Outcome.blocked, n)

-- The loop of `ResolveServiceEndpoint`, by the tries that are left.
unfoldable pub resolve_loop : Env → Balancer → ℕ → Exec Controller Text
unfolding try_address
resolve_loop env lb zero n = (err (text "healthy instance not found"), n)
resolve_loop env lb (suc left) n =
    try_address env (next_instance lb (env.draw n.events)) (resolve_loop env lb left)
      (record n { events = n.events + 1 })

-- `tries < maxLen || tries < 5`
abbrev pub max_tries : ℕ → ℕ
max_tries max_len = if ltb max_len 5 then 5 else max_len

resolve_in : Env → Text → Option Balancer → Exec Controller Text
resolve_in env service none = fail (text "service not found: " ++ service)
resolve_in env service (some lb) = resolve_loop env lb (max_tries (size lb))

unfoldable pub resolve_service_endpoint : Env → Text → Exec Controller Text
unfolding resolve_in
resolve_service_endpoint env service n = resolve_in env service (load service n.instances_map) n

unfoldable pub count_healthy : Controller → List Text → ℕ
count_healthy n [] = 0
count_healthy n (addr ∷ rest) =
    let count = count_healthy n rest in if is_healthy n addr then suc count else count

unfoldable pub available_ips : Text → Controller → Outcome ℕ
available_ips service n = elim (load service n.instances_map) [
  | none ↦ err (text "service " ++ (service ++ text " not found"))
  | some lb ↦ ok (count_healthy n (get_ips lb))
]

-- One visit of the range of `RunHealthChecks`: the assertion on the key, the check, and the delay,
-- whose division panics when the count plus one wraps to 0.
check_entry : Env → Key → Exec Controller (Unit {0})
unfolding check_health
check_entry env (index i) n = (panic, n)
check_entry env (ip addr) n =
    let health = check_health env n.events addr (text "/health") in
    let n' : Controller = record n {
      health_check_table = store (ip addr) health n.health_check_table;
      events = n.events + 1;
    } in
    (if eqb ((n.instance_count + 1) % u64_mod) 0 then panic else ok tt, n')

-- One round of the loop, over the keys that the range visits; a cancelled context ends the range.
unfoldable pub run_health_checks : Env → List Key → Exec Controller (Unit {0})
unfolding check_entry
run_health_checks env [] n = (ok tt, n)
run_health_checks env (k ∷ ks) n =
    let rest = run_health_checks env ks in
    if env.cancelled n.events then (ok tt, n) else (check_entry env k >> rest) n
