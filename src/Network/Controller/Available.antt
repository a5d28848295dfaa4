-- ===== src/Network/Controller/Available.antt =====
-- `AvailableIPs` of the internal controller.
use ukfaas.Prelude.{
  ◌⊎◌, ℕ, ◌≡◌, ◌≢◌, refl, ◌∙◌, ℕ_discrete, true, false, none, List, [], ◌∷◌, ◌++◌, arith, inl, inr,
}
use ukfaas.Prelude.Lists.{length, All, Option-cases, Bool-cases}
use ukfaas.Prelude.Text.{Text, text, text_eq}
use ukfaas.Prelude.Map.{load}
use ukfaas.Prelude.Exec.{ok, err}
use ukfaas.Network.Balancer.{get_ips}
use ukfaas.Network.Controller.{
  Controller, Env, is_healthy, resolve_service_endpoint, count_healthy, available_ips,
}
use ukfaas.Network.Controller.Counts.{IsCounted, addresses}
use ukfaas.Network.Controller.Resolve.{
  GivenUp-err, addresses-found, nil_of_length, resolve_service_endpoint_none,
}

-- The two parts in which a list was taken apart, each in the order of the list.
pub data Parts : List Text → List Text → List Text → Type 0 where
  nil : Parts [] [] []
  left : {x : Text} {xs ys zs : List Text} → Parts xs ys zs → Parts (x ∷ xs) ys (x ∷ zs)
  right : {y : Text} {xs ys zs : List Text} → Parts xs ys zs → Parts xs (y ∷ ys) (y ∷ zs)

-- The addresses are `count` that the health table calls healthy, and others that it does not.
abbrev pub Counted : Controller → List Text → ℕ → Type 0
Counted n ips count =
    (well : List Text) × (ill : List Text) × Parts well ill ips
    × All (λ addr. is_healthy n addr ≡ true) well
    × All (λ addr. is_healthy n addr ≡ false) ill
    × (length well ≡ count)

count_healthy-Counted : (n : Controller) (ips : List Text) → Counted n ips (count_healthy n ips)
unfolding count_healthy
count_healthy-Counted n [] = ([], [], nil, tt, tt, refl)
count_healthy-Counted n (x ∷ ips) =
    let (well, ill, parts, all_well, all_ill, counted) = count_healthy-Counted n ips in
    elim (Bool-cases (is_healthy n x)) [
      | inl e ↦ (x ∷ well, ill, left parts, (e, all_well), all_ill, rw e (omega (arith, counted)))
      | inr e ↦ (well, x ∷ ill, right parts, all_well, (e, all_ill), rw e counted)
    ]

Parts-All {κ} :
    (P : Text → Type κ) {xs ys zs : List Text} → Parts xs ys zs → xs ≡ [] → All P ys → All P zs
Parts-All P nil e all = tt
Parts-All P (left parts) e all = absurd cc
Parts-All P (right parts) e all = (all.0, Parts-All P parts e all.1)

-- `AvailableIPs` returns an error for an unknown service, and for a known one the number of those of
-- its addresses that the health table calls healthy. If that is 0, then resolving the service returns
-- an error. The count of instances, and each balancer's, are assumed to be right.
pub available_ips_lem :
    (env : Env) (service : Text) (n : Controller)
    → IsCounted n
    → ((load service n.instances_map ≡ none)
        × (available_ips service n ≡ err (text "service " ++ (service ++ text " not found"))))
      ⊎ ((count : ℕ) × (available_ips service n ≡ ok count)
          × Counted n (addresses service n) count
          × ((count ≢ 0) ⊎ (e : Text) × ((resolve_service_endpoint env service n).0 ≡ err e)))
unfolding available_ips get_ips
available_ips_lem env service n v = elim (Option-cases (load service n.instances_map)) [
  | inl missing ↦ inl (missing, ground (arith, missing))
  | inr (lb, found) ↦
      let addrs = addresses-found service n lb found in
      let (well, ill, parts, all_well, all_ill, counted) = count_healthy-Counted n lb.ips in
      inr (
        count_healthy n lb.ips,
        ground (arith, found),
        rw addrs (well, ill, parts, all_well, all_ill, counted),
        elim (ℕ_discrete (count_healthy n lb.ips) 0) [
          | yes z ↦ inr (
              GivenUp-err service n (resolve_service_endpoint env service n) (
                resolve_service_endpoint_none env service n v
                  (rw addrs (Parts-All _ parts (nil_of_length well (counted ∙ z)) all_ill))))
          | no nz ↦ inl nz
        ],
      )
]
