-- ===== src/Network/Balancer.antt =====
-- pkg/network/internal/random.go and loadbalancer.go: the random load balancer, and the registry
-- of load balancers. A random number is the oracle's, reduced below the size: `rand.Intn` returns
-- any number below its argument.
pub mod Laws
use ukfaas.Prelude.{ℕ, ◌+◌, ◌-◌, ◌%◌, ◌^◌, Option, none, some, List, [], ◌∷◌, ◌++◌}
use ukfaas.Prelude.Lists.{ltb, leb, eqb, if◌then◌else◌, length, get_elem?, set, replicate}
use ukfaas.Prelude.Text.{Text, text, ◌==◌, text_eq}
use ukfaas.Prelude.Map.{Map, store}
use ukfaas.Prelude.Exec.{Outcome, ok, err, panic, blocked}

abbrev pub u64_mod : ℕ
u64_mod = 2 ^ 64

-- `int(x)` of a value of this size or more is negative.
abbrev pub int_limit : ℕ
int_limit = 2 ^ 63

pub record Balancer : Type 0 where
  pub size : ℕ
  pub ips : List Text

unfoldable pub new_random_load_balancer : Outcome Balancer
new_random_load_balancer = ok (record { size = 0; ips = [] })

unfoldable pub add_instance : Balancer → Text → Outcome Balancer
add_instance lb ip = ok (record { size = (lb.size + 1) % u64_mod; ips = lb.ips ++ ip ∷ [] })

-- The loop of `DeleteInstance`: `buf` is `newIpList`, `index` the next place to write.
unfoldable pub copy_others : Text → List Text → List Text → ℕ → Outcome (List Text)
copy_others ip [] buf index = ok buf
copy_others ip (curr ∷ rest) buf index =
    let skip = copy_others ip rest buf index in
    let write = copy_others ip rest (set buf index curr) (index + 1) in
    if ip == curr then skip else if ltb index (length buf) then write else panic

resized : ℕ → Outcome (List Text) → Outcome Balancer
resized n (ok buf) = ok (record { size = n; ips = buf })
resized n (err e) = err e
resized n panic = panic
resized n blocked = blocked

unfoldable pub delete_instance : Balancer → Text → Outcome Balancer
unfolding resized
delete_instance lb ip =
    if eqb lb.size 0
    then ok lb
    else resized (lb.size - 1) (copy_others ip lb.ips (replicate (lb.size - 1) []) 0)

at_index : Option Text → Outcome Text
at_index none = panic
at_index (some ip) = ok ip

-- `draw` is the number that the random source holds next; `rand.Intn` panics at a negative bound.
unfoldable pub next_instance : Balancer → ℕ → Outcome Text
unfolding at_index
next_instance lb draw =
    if eqb lb.size 0
    then err (text "no ips for instance")
    else if leb int_limit lb.size
    then panic
    else at_index (get_elem? lb.ips (draw % lb.size))

unfoldable pub get_ips : Balancer → List Text
get_ips lb = lb.ips

unfoldable pub size : Balancer → ℕ
size lb = lb.size

-- `LoadBalancerConstructor`, which ignores its arguments.
abbrev pub Constructor : Type 0
Constructor = Outcome Balancer

unfoldable pub register_load_balancer :
    Text → Constructor → Map Text Constructor → Map Text Constructor
register_load_balancer lb_type constructor registry = store lb_type constructor registry

-- The registry after the package's `init`.
unfoldable pub load_balancers : Map Text Constructor
unfolding register_load_balancer new_random_load_balancer
load_balancers = register_load_balancer (text "random") new_random_load_balancer []
