-- ===== src/Network/Controller/Counts.antt =====
-- The count of instances of the internal controller against the balancers that it keeps.
use ukfaas.Prelude.{ℕ, ◌+◌, ◌≤◌, ◌<◌, ◌≡◌, refl, Bool, none, some, List, [], ◌∷◌, arith}
use ukfaas.Prelude.Lists.{length}
use ukfaas.Prelude.Text.{Text, text_eq}
use ukfaas.Prelude.Map.{Map, load, store, remove, NodupKeys, store-NodupKeys}
use ukfaas.Network.Balancer.{Balancer, int_limit, new_random_load_balancer}
use ukfaas.Network.Balancer.Laws.{IsSized}
use ukfaas.Network.Controller.{Controller, Key, key_eq}

-- The number of addresses of all services.
abbrev pub total : Map Text Balancer → ℕ
total [] = 0
total ((_, lb) ∷ m) = length lb.ips + total m

abbrev pub AllSized : Map Text Balancer → Type 0
AllSized [] = Unit {0}
AllSized ((_, lb) ∷ m) = IsSized lb × AllSized m

abbrev pub addresses : Text → Controller → List Text
addresses service n = elim (load service n.instances_map) [ none ↦ [] | some lb ↦ lb.ips ]

-- Every balancer counts its addresses, services are distinct, and `instance_count` is their sum.
pub record IsCounted (n : Controller) : Type 0 where
  pub sized : AllSized n.instances_map
  pub nodup : NodupKeys n.instances_map
  pub counted : n.instance_count ≡ total n.instances_map
  pub small : n.instance_count < int_limit
  pub constructor : n.default_load_balancer ≡ some new_random_load_balancer

pub load-AllSized :
    (service : Text) (m : Map Text Balancer) (lb : Balancer)
    → AllSized m
    → load service m ≡ some lb
    → IsSized lb
unfolding load
load-AllSized service [] lb all e = cc
load-AllSized service ((k, v) ∷ m) lb all e = ground (arith, load-AllSized service m lb all.1)

pub store-AllSized :
    (service : Text) (lb : Balancer) (m : Map Text Balancer)
    → AllSized m
    → IsSized lb
    → AllSized (store service lb m)
unfolding store
store-AllSized service lb [] all v = (v, tt)
store-AllSized service lb ((k, w) ∷ m) all v = ground (arith, store-AllSized service lb m all.1 v)

pub remove-AllSized :
    (service : Text) (m : Map Text Balancer) → AllSized m → AllSized (remove service m)
unfolding remove
remove-AllSized service [] all = tt
remove-AllSized service ((k, w) ∷ m) all = ground (arith, remove-AllSized service m all.1)

pub total-load :
    (service : Text) (m : Map Text Balancer) (lb : Balancer)
    → load service m ≡ some lb
    → length lb.ips ≤ total m
unfolding load
total-load service [] lb e = cc
total-load service ((k, w) ∷ m) lb e = ground (arith, total-load service m lb)

pub total-store_new :
    (service : Text) (lb : Balancer) (m : Map Text Balancer)
    → load service m ≡ none
    → total (store service lb m) ≡ length lb.ips + total m
unfolding load store
total-store_new service lb [] e = refl
total-store_new service lb ((k, w) ∷ m) e = ground (arith, total-store_new service lb m)

pub total-store_old :
    (service : Text) (lb old : Balancer) (m : Map Text Balancer)
    → load service m ≡ some old
    → total (store service lb m) + length old.ips ≡ length lb.ips + total m
unfolding load store
total-store_old service lb old [] e = cc
total-store_old service lb old ((k, w) ∷ m) e = ground (arith, total-store_old service lb old m)

remove_absent :
    (service : Text) (m : Map Text Balancer) → load service m ≡ none → remove service m ≡ m
unfolding load remove
remove_absent service [] e = refl
remove_absent service ((k, w) ∷ m) e = ground (arith, remove_absent service m)

pub total-remove :
    (service : Text) (old : Balancer) (m : Map Text Balancer)
    → NodupKeys m
    → load service m ≡ some old
    → total (remove service m) + length old.ips ≡ total m
unfolding load remove
total-remove service old [] u e = cc
total-remove service old ((k, w) ∷ m) u e =
    ground (arith, total-remove service old m u.1, remove_absent service m)

-- A controller after a balancer of a service has been replaced by a longer or shorter one.
abbrev pub replaced : Text → Balancer → ℕ → Map Key Bool → ℕ → Controller → Controller
replaced service lb count table events n = record n {
  instances_map = store service lb n.instances_map;
  instance_count = count;
  health_check_table = table;
  events = events;
}

pub replaced_new-IsCounted :
    (service : Text) (lb : Balancer) (table : Map Key Bool) (count events : ℕ) (n : Controller)
    → load service n.instances_map ≡ none
    → IsSized lb
    → count ≡ n.instance_count + length lb.ips
    → count < int_limit
    → IsCounted n
    → IsCounted (replaced service lb count table events n)
replaced_new-IsCounted service lb table count events n e sized c small v = record {
  sized = store-AllSized service lb n.instances_map v.sized sized;
  nodup = store-NodupKeys service lb n.instances_map v.nodup;
  counted = omega (arith, v.counted, total-store_new service lb n.instances_map e);
  small = small;
  constructor = v.constructor;
}

pub replaced_old-IsCounted :
    (service : Text) (lb old : Balancer) (table : Map Key Bool) (count events : ℕ) (n : Controller)
    → load service n.instances_map ≡ some old
    → IsSized lb
    → count + length old.ips ≡ n.instance_count + length lb.ips
    → count < int_limit
    → IsCounted n
    → IsCounted (replaced service lb count table events n)
replaced_old-IsCounted service lb old table count events n e sized c small v = record {
  sized = store-AllSized service lb n.instances_map v.sized sized;
  nodup = store-NodupKeys service lb n.instances_map v.nodup;
  counted = omega (arith, v.counted, total-store_old service lb old n.instances_map e);
  small = small;
  constructor = v.constructor;
}
