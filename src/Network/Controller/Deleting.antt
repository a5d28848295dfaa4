-- ===== src/Network/Controller/Deleting.antt =====
-- `DeleteServiceIP` of the internal controller.
use mathlib.Core.List.{append-nil}
use ukfaas.Prelude.{◌+◌, ◌-◌, ◌%◌, ◌≡◌, ◌≢◌, refl, none, some, [], arith, inl, inr}
use ukfaas.Prelude.Lists.{if◌then◌else◌, Option-cases}
use ukfaas.Prelude.Text.{Text, ◌==◌, text_eq}
use ukfaas.Prelude.Map.{load, remove, load-store}
use ukfaas.Prelude.Exec.{Outcome, ok, panic}
use ukfaas.Network.Balancer.{Balancer, u64_mod, delete_instance}
use ukfaas.Network.Balancer.Laws.{
  occurrences, others, delete_instance_lem, delete_instance-IsSized, length-others,
}
use ukfaas.Network.Controller.{Controller, ip, delete_service_ip, delete_from, key_eq}
use ukfaas.Network.Controller.Counts.{
  addresses, IsCounted, load-AllSized, total-load, replaced, replaced_old-IsCounted,
}

delete_service_ip_lem :
    (service addr : Text) (n : Controller) (lb lb' : Balancer)
    → load service n.instances_map ≡ some lb
    → delete_instance lb addr ≡ ok lb'
    → delete_service_ip service addr n ≡ (
      ok tt,
      replaced service lb'
          ((n.instance_count + (u64_mod - 1)) % u64_mod)
          (remove (ip addr) n.health_check_table)
          n.events
          n,
    )
unfolding delete_service_ip
delete_service_ip_lem service addr n lb lb' found shrunk = rw (found, delete_from, shrunk)

module _ (service addr : Text) (n : Controller) (v : IsCounted n) where
  shrinks :
      (lb : Balancer)
      → load service n.instances_map ≡ some lb
      → occurrences addr lb.ips ≡ 1
      → delete_instance lb addr ≡ ok (record { size = lb.size - 1; ips = others addr lb.ips })
  shrinks lb e once =
      let sized = load-AllSized service n.instances_map lb v.sized e in
      ground (
        arith,
        delete_instance_lem lb addr sized,
        sized.counted,
        length-others addr lb.ips,
        append-nil (others addr lb.ips),
      )

  -- What is promised of the outcome of `DeleteServiceIP`.
  abbrev Deleted : Outcome (Unit {0}) × Controller → Type 0
  Deleted r =
      (r.0 ≡ ok tt) × (addresses service r.1 ≡ others addr (addresses service n)) × IsCounted r.1

  Deleted-old :
      (lb : Balancer)
      → load service n.instances_map ≡ some lb
      → occurrences addr lb.ips ≡ 1
      → Deleted (delete_service_ip service addr n)
  Deleted-old lb e once =
      let sized = load-AllSized service n.instances_map lb v.sized e in
      let fewer = length-others addr lb.ips in
      let lb' : Balancer = record { size = lb.size - 1; ips = others addr lb.ips } in
      let below = total-load service n.instances_map lb e in
      let shrunk = shrinks lb e once in
      rw (delete_service_ip_lem service addr n lb lb' e shrunk) (
        refl,
        ground (arith, e, load-store service service lb' n.instances_map),
        replaced_old-IsCounted service lb' lb _ _ _ n e (delete_instance-IsSized addr sized shrunk)
            (omega (arith, v.counted, v.small)) (omega (arith, v.counted, v.small)) v,
      )

-- Deleting an address that its service has once succeeds, takes that address out and keeps the
-- others in order, and keeps the count right.
pub delete_service_ip-IsCounted :
    (service addr : Text) (n : Controller)
    → IsCounted n
    → occurrences addr (addresses service n) ≡ 1
    → ((delete_service_ip service addr n).0 ≡ ok tt)
      × (addresses service (delete_service_ip service addr n).1 ≡ others addr (addresses service n))
      × IsCounted (delete_service_ip service addr n).1
delete_service_ip-IsCounted service addr n v once =
    elim (Option-cases (load service n.instances_map)) [
      | inl e ↦ absurd (ground (arith, e))
      | inr (lb, e) ↦ Deleted-old service addr n v lb e (ground (arith, e))
    ]

-- Deleting such an address changes no other service, and takes one from the count.
pub delete_service_ip-addresses :
    (service addr other : Text) (n : Controller)
    → IsCounted n
    → occurrences addr (addresses service n) ≡ 1
    → (addresses other (delete_service_ip service addr n).1
        ≡ (if service == other then others addr (addresses service n) else addresses other n))
      × ((delete_service_ip service addr n).1.instance_count + 1 ≡ n.instance_count)
delete_service_ip-addresses service addr other n v once =
    elim (Option-cases (load service n.instances_map)) [
      | inl e ↦ absurd (ground (arith, e))
      | inr (lb, e) ↦
          let lb' : Balancer = record { size = lb.size - 1; ips = others addr lb.ips } in
          let had : addresses service n ≡ lb.ips = ground (arith, e) in
          let once_here : occurrences addr lb.ips ≡ 1 = rw had at once in
          let fewer = length-others addr lb.ips in
          let below = total-load service n.instances_map lb e in
          let shrunk = shrinks service addr n v lb e once_here in
          rw (delete_service_ip_lem service addr n lb lb' e shrunk, had)
            (
              ground (arith, load-store other service lb' n.instances_map),
              omega (arith, v.counted, v.small),
            )
    ]

-- Deleting an address of a service that the controller does not know succeeds all the same, and
-- takes one from the count; from a count of 0 it wraps to the largest number.
pub delete_service_ip_unknown :
    (service addr : Text) (n : Controller)
    → load service n.instances_map ≡ none
    → n.instance_count ≡ 0
    → ((delete_service_ip service addr n).0 ≡ ok tt)
      × ((delete_service_ip service addr n).1.instance_count ≡ u64_mod - 1)
unfolding delete_service_ip delete_from
delete_service_ip_unknown service addr n e h = ground (arith, e)

-- Deleting an address that a known service does not have panics.
pub delete_service_ip_absent :
    (service addr : Text) (n : Controller)
    → IsCounted n
    → addresses service n ≢ []
    → occurrences addr (addresses service n) ≡ 0
    → (delete_service_ip service addr n).0 ≡ panic
unfolding delete_service_ip delete_from
delete_service_ip_absent service addr n v some_left absent =
    elim (Option-cases (load service n.instances_map)) [
      | inl e ↦ absurd (some_left (ground (arith, e)))
      | inr (lb, e) ↦
          let sized = load-AllSized service n.instances_map lb v.sized e in
          let none_here : occurrences addr lb.ips ≡ 0 = ground (arith, e) in
          let some_here : lb.ips ≢ [] = ground (arith, e) in
          let panics : delete_instance lb addr ≡ panic =
            ground (arith, delete_instance_lem lb addr sized) in
          ground (arith, e, panics)
    ]
