-- ===== src/Network/Controller/Adding.antt =====
-- `AddServiceIP` of the internal controller.
use ukfaas.Prelude.{◌+◌, ◌%◌, ◌<◌, ◌≡◌, refl, none, some, [], ◌∷◌, ◌++◌, arith, inl, inr}
use ukfaas.Prelude.Lists.{if◌then◌else◌, Option-cases, length-append}
use ukfaas.Prelude.Text.{Text, ◌==◌, text_eq}
use ukfaas.Prelude.Map.{load, store, load-store}
use ukfaas.Prelude.Exec.{Outcome, ok}
use ukfaas.Network.Balancer.{Balancer, u64_mod, int_limit, new_random_load_balancer, add_instance}
use ukfaas.Network.Balancer.Laws.{add_instance_lem, new_random_load_balancer-IsSized}
use ukfaas.Network.Controller.{
  Controller, Env, ip, balancer_for, add_service_ip, check_health, key_eq,
}
use ukfaas.Network.Controller.Counts.{
  addresses, IsCounted, load-AllSized, total-load, replaced, replaced_new-IsCounted,
  replaced_old-IsCounted,
}

-- The controller after `AddServiceIP` has stored the balancer `lb`.
abbrev added : Env → Text → Text → Balancer → Controller → Controller
added env service addr lb n =
    replaced service lb ((n.instance_count + 1) % u64_mod)
      (store (ip addr) (check_health env n.events addr []) n.health_check_table) (n.events + 1) n

add_service_ip_lem :
    (env : Env) (service addr : Text) (n : Controller) (lb lb' : Balancer)
    → balancer_for n service ≡ ok lb
    → add_instance lb addr ≡ ok lb'
    → add_service_ip env service addr n ≡ (ok tt, added env service addr lb' n)
unfolding add_service_ip
add_service_ip_lem env service addr n lb lb' found grown = rw (found, grown)

module _ (env : Env) (service addr : Text) (n : Controller) (v : IsCounted n) where
  -- What is promised of the outcome of `AddServiceIP`.
  abbrev Added : Outcome (Unit {0}) × Controller → Type 0
  Added r =
      (r.0 ≡ ok tt) × (addresses service r.1 ≡ addresses service n ++ addr ∷ []) × IsCounted r.1

  Added-new :
      n.instance_count + 1 < int_limit
      → load service n.instances_map ≡ none
      → Added (add_service_ip env service addr n)
  unfolding balancer_for new_random_load_balancer
  Added-new h e =
      let blank : Balancer = record { size = 0; ips = [] } in
      let lb : Balancer = record { size = 1; ips = addr ∷ [] } in
      let grown = add_instance_lem blank addr new_random_load_balancer-IsSized (omega arith) in
      rw (add_service_ip_lem env service addr n blank lb (ground (arith, e, v.constructor)) grown.0)
        (
          refl,
          ground (arith, e, load-store service service lb n.instances_map),
          replaced_new-IsCounted service lb _ _ _ n e grown.1 (omega arith) (omega arith) v,
        )

  Added-old :
      (lb : Balancer)
      → n.instance_count + 1 < int_limit
      → load service n.instances_map ≡ some lb
      → Added (add_service_ip env service addr n)
  unfolding balancer_for
  Added-old lb h e =
      let sized = load-AllSized service n.instances_map lb v.sized e in
      let lb' : Balancer = record { size = lb.size + 1; ips = lb.ips ++ addr ∷ [] } in
      let below = total-load service n.instances_map lb e in
      let grown = add_instance_lem lb addr sized (omega (arith, v.counted, sized.counted)) in
      rw (add_service_ip_lem env service addr n lb lb' (ground (arith, e)) grown.0) (
        refl,
        ground (arith, e, load-store service service lb' n.instances_map),
        replaced_old-IsCounted service lb' lb _ _ _ n e grown.1
            (omega (arith, length-append lb.ips (addr ∷ []))) (omega arith) v,
      )

-- While the count stays below the limit of `int`, adding an address succeeds, appends it to the
-- addresses of its service, and keeps the count right.
pub add_service_ip-IsCounted :
    (env : Env) (service addr : Text) (n : Controller)
    → IsCounted n
    → n.instance_count + 1 < int_limit
    → ((add_service_ip env service addr n).0 ≡ ok tt)
      × (addresses service (add_service_ip env service addr n).1 ≡ addresses service n ++ addr ∷ [])
      × IsCounted (add_service_ip env service addr n).1
add_service_ip-IsCounted env service addr n v h =
    elim (Option-cases (load service n.instances_map)) [
      | inl e ↦ Added-new env service addr n v h e
      | inr (lb, e) ↦ Added-old env service addr n v lb h e
    ]

-- The balancer that `AddServiceIP` works on, and the one that it stores.
grown :
    (service addr : Text) (n : Controller)
    → IsCounted n
    → n.instance_count + 1 < int_limit
    → (lb : Balancer) × (lb' : Balancer) × (balancer_for n service ≡ ok lb)
      × (add_instance lb addr ≡ ok lb')
      × (lb'.ips ≡ addresses service n ++ addr ∷ [])
unfolding balancer_for new_random_load_balancer
grown service addr n v h = elim (Option-cases (load service n.instances_map)) [
  | inl e ↦
      let blank : Balancer = record { size = 0; ips = [] } in
      let sized = new_random_load_balancer-IsSized in
      (
        blank,
        record { size = 1; ips = addr ∷ [] },
        ground (arith, e, v.constructor),
        (add_instance_lem blank addr sized (omega arith)).0,
        ground (arith, e),
      )
  | inr (lb, e) ↦
      let sized = load-AllSized service n.instances_map lb v.sized e in
      let below = total-load service n.instances_map lb e in
      (
        lb,
        record { size = lb.size + 1; ips = lb.ips ++ addr ∷ [] },
        ground (arith, e),
        (add_instance_lem lb addr sized (omega (arith, v.counted, sized.counted))).0,
        ground (arith, e),
      )
]

-- Adding an address appends it to its service, changes no other service, and adds one to the count.
pub add_service_ip-addresses :
    (env : Env) (service addr other : Text) (n : Controller)
    → IsCounted n
    → n.instance_count + 1 < int_limit
    → (addresses other (add_service_ip env service addr n).1
        ≡ (if service == other then addresses service n ++ addr ∷ [] else addresses other n))
      × ((add_service_ip env service addr n).1.instance_count ≡ n.instance_count + 1)
add_service_ip-addresses env service addr other n v h =
    let (lb, lb', found, added_to, longer) = grown service addr n v h in
    rw (add_service_ip_lem env service addr n lb lb' found added_to, ← longer)
      (ground (arith, load-store other service lb' n.instances_map), omega arith)
