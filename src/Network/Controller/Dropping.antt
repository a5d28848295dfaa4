-- ===== src/Network/Controller/Dropping.antt =====
-- `DeleteService` of the internal controller.
use ukfaas.Prelude.{
  Option, ℕ, ◌+◌, ◌-◌, ◌%◌, ◌≤◌, ◌<◌, ◌≡◌, refl, ◌∙◌, none, some, List, [], ◌∷◌, ◌++◌, arith, inl,
  inr,
}
use ukfaas.Prelude.Lists.{if◌then◌else◌, length, Option-cases}
use ukfaas.Prelude.Text.{Text, text, ◌==◌, text_eq}
use ukfaas.Prelude.Map.{
  load, remove, remove-NodupKeys, load-remove, load-remove_ne, load-remove_self,
}
use ukfaas.Prelude.Exec.{err}
use ukfaas.Network.Balancer.{Balancer, u64_mod, int_limit, get_ips}
use ukfaas.Network.Controller.{Controller, ip, index, delete_service, drop_service, forget, key_eq}
use ukfaas.Network.Controller.Counts.{
  addresses, total, IsCounted, remove-AllSized, total-load, total-remove,
}

forget-instances_map :
    (i : ℕ) (ips : List Text) (n : Controller)
    → ((forget i ips n).instances_map ≡ n.instances_map)
      × ((forget i ips n).default_load_balancer ≡ n.default_load_balancer)
unfolding forget
forget-instances_map i [] n = (refl, refl)
forget-instances_map i (_ ∷ ips) n = forget-instances_map (i + 1) ips _

forget-health_check_table :
    (addr : Text) (i : ℕ) (ips : List Text) (n : Controller)
    → load (ip addr) (forget i ips n).health_check_table ≡ load (ip addr) n.health_check_table
unfolding forget
forget-health_check_table addr i [] n = refl
forget-health_check_table addr i (_ ∷ ips) n =
    forget-health_check_table addr (i + 1) ips _
    ∙ load-remove_ne (ip addr) (index i) n.health_check_table (λ e. cc)

forget-instance_count :
    (i : ℕ) (ips : List Text) (n : Controller)
    → length ips ≤ n.instance_count
    → n.instance_count < int_limit
    → (forget i ips n).instance_count + length ips ≡ n.instance_count
unfolding forget
forget-instance_count i [] n h small = omega arith
forget-instance_count i (_ ∷ ips) n h small =
    let n' : Controller = record n {
      health_check_table = remove (index i) n.health_check_table;
      instance_count = (n.instance_count + (u64_mod - 1)) % u64_mod;
    } in
    omega (arith, forget-instance_count (i + 1) ips n' (omega arith) (omega arith))

drop_service-IsCounted :
    (service : Text) (lb : Balancer) (n : Controller)
    → load service n.instances_map ≡ some lb
    → IsCounted n
    → IsCounted (drop_service service (some lb) n)
unfolding drop_service get_ips
drop_service-IsCounted service lb n e v = record {
  sized = rw kept.0 (remove-AllSized service n.instances_map v.sized);
  nodup = rw kept.0 (remove-NodupKeys service n.instances_map v.nodup);
  counted = rw kept.0 (omega (arith, fewer, below, v.counted, shrunk));
  small = omega (arith, fewer, v.small);
  constructor = kept.1 ∙ v.constructor;
}
  where
    shorter : Controller
    shorter = record n { instances_map = remove service n.instances_map }

    kept :
        ((forget 0 lb.ips shorter).instances_map ≡ remove service n.instances_map)
        × ((forget 0 lb.ips shorter).default_load_balancer ≡ n.default_load_balancer)
    kept = forget-instances_map 0 lb.ips shorter

    below : length lb.ips ≤ total n.instances_map
    below = total-load service n.instances_map lb e

    shrunk : total (remove service n.instances_map) + length lb.ips ≡ total n.instances_map
    shrunk = total-remove service lb n.instances_map v.nodup e

    fewer : (forget 0 lb.ips shorter).instance_count + length lb.ips ≡ n.instance_count
    fewer = forget-instance_count 0 lb.ips shorter (omega (arith, below, v.counted)) v.small

module _ (service : Text) (lb : Balancer) (n : Controller) where
  abbrev without_service : Controller
  without_service = record n { instances_map = remove service n.instances_map }

  drop_service-instances_map : load service (drop_service service (some lb) n).instances_map ≡ none
  unfolding drop_service get_ips
  drop_service-instances_map =
      rw (forget-instances_map 0 lb.ips without_service).0
        (load-remove_self service n.instances_map)

  drop_service-health_check_table :
      (addr : Text)
      → load (ip addr) (drop_service service (some lb) n).health_check_table
        ≡ load (ip addr) n.health_check_table
  unfolding drop_service get_ips
  drop_service-health_check_table addr = forget-health_check_table addr 0 lb.ips without_service

-- `DeleteService` reports an error also when it has deleted the service. It leaves no address of
-- the service, keeps the count right, and keeps every entry for an address in the health table.
pub delete_service_lem :
    (service addr : Text) (n : Controller)
    → IsCounted n
    → ((delete_service service n).0 ≡ err (text "service " ++ (service ++ text " not found")))
      × (load service (delete_service service n).1.instances_map ≡ none)
      × (load (ip addr) (delete_service service n).1.health_check_table
          ≡ load (ip addr) n.health_check_table)
      × IsCounted (delete_service service n).1
unfolding delete_service
delete_service_lem service addr n v = elim (Option-cases (load service n.instances_map)) [
  | inl e ↦ rw (e, drop_service) (refl, e, refl, v)
  | inr (lb, e) ↦ rw e (
    refl,
    drop_service-instances_map service lb n,
    drop_service-health_check_table service lb n addr,
    drop_service-IsCounted service lb n e v,
  )
]

module _ (service other : Text) (n : Controller) (v : IsCounted n) where
  drop_service-addresses :
      (o : Option Balancer)
      → load service n.instances_map ≡ o
      → (addresses other (drop_service service o n)
          ≡ (if service == other then [] else addresses other n))
        × ((drop_service service o n).instance_count ≤ n.instance_count)
  unfolding drop_service get_ips
  drop_service-addresses none e = ground (arith, e)
  drop_service-addresses (some lb) e =
      let shorter = without_service service lb n in
      let below = total-load service n.instances_map lb e in
      let fewer = forget-instance_count 0 lb.ips shorter (omega (arith, v.counted)) v.small in
      let kept = (forget-instances_map 0 lb.ips shorter).0 in
      (
        rw (addresses, kept) (ground (arith, load-remove other service n.instances_map)),
        omega arith,
      )

  -- Deleting a service leaves the addresses of every other as they were, and adds nothing to the
  -- count.
  pub delete_service-addresses :
      (addresses other (delete_service service n).1
        ≡ (if service == other then [] else addresses other n))
      × ((delete_service service n).1.instance_count ≤ n.instance_count)
  unfolding delete_service
  delete_service-addresses = drop_service-addresses (load service n.instances_map) refl
