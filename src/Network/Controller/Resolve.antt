-- ===== src/Network/Controller/Resolve.antt =====
-- `ResolveServiceEndpoint` of the internal controller.
use ukfaas.Prelude.{
  ◌⊎◌, ℕ, zero, suc, ◌+◌, ◌%◌, ◌≤◌, ◌≡◌, ◌≢◌, refl, ap, ◌∙◌, ◌-◌, ℕ_discrete, Bool, true, false,
  none, some, List, [], ◌∷◌, ◌++◌, arith, inl, inr,
}
use ukfaas.Prelude.Lists.{
  if◌then◌else◌, length, get_elem?, All, Option-cases, Bool-cases, get_elem?-All,
}
use ukfaas.Prelude.Text.{Text, text, text_eq}
use ukfaas.Prelude.Map.{load}
use ukfaas.Prelude.Exec.{Outcome, ok, err}
use ukfaas.Network.Balancer.{Balancer, next_instance, size}
use ukfaas.Network.Balancer.Laws.{IsSized, next_instance-ok}
use ukfaas.Network.Controller.{
  Controller, Env, watchdog_url, is_healthy, parsed, try_address, resolve_loop, max_tries,
  resolve_service_endpoint, resolve_in,
}
use ukfaas.Network.Controller.Counts.{IsCounted, addresses, load-AllSized}

-- An address of the list that the health table calls healthy, and whose endpoint is `url`.
abbrev pub Serves : Controller → List Text → Text → Type 0
Serves n ips url =
    (addr : Text) × (i : ℕ) × (get_elem? ips i ≡ some addr)
    × (is_healthy n addr ≡ true)
    × (url ≡ watchdog_url addr)

abbrev AllHealthy : Controller → List Text → Type 0
AllHealthy n = All (λ addr. is_healthy n addr ≡ true)

abbrev NoneHealthy : Controller → List Text → Type 0
NoneHealthy n = All (λ addr. is_healthy n addr ≡ false)

-- Counting questions does not change what the health table says.
is_healthy-events :
    (n : Controller) (t : ℕ) (addr : Text)
    → is_healthy (record n { events = t }) addr ≡ is_healthy n addr
unfolding is_healthy
is_healthy-events n t addr = refl

pub nil_of_length : (ips : List Text) → length ips ≡ 0 → ips ≡ []
nil_of_length [] e = refl
nil_of_length (x ∷ ips) e = absurd (omega arith)

abbrev asked : Controller → Controller
asked n = record n { events = n.events + 1 }

plus_zero : (n : ℕ) → n ≡ n + 0
plus_zero n = omega arith

plus_suc : (n k : ℕ) → n + 1 + k ≡ n + suc k
plus_suc n k = omega arith

five_tries : (k : ℕ) → 5 ≤ suc (max_tries k - 1)
five_tries k = ground arith

enough_tries : (k : ℕ) → k ≤ suc (max_tries k - 1)
enough_tries k = ground arith

exact_tries : (k l : ℕ) → k ≡ l → (suc (max_tries k - 1) ≡ 5) ⊎ (suc (max_tries k - 1) ≡ l)
exact_tries k l e = ground (arith, e)

-- One try, with the address that was drawn.
resolve_loop-suc :
    (env : Env) (lb : Balancer) (left : ℕ) (n : Controller) (addr : Text)
    → next_instance lb (env.draw n.events) ≡ ok addr
    → resolve_loop env lb (suc left) n ≡ (
        if is_healthy n addr
        then (parsed (env.parses (watchdog_url addr)) (watchdog_url addr), asked n)
        else resolve_loop env lb left (asked n))
unfolding resolve_loop try_address is_healthy
resolve_loop-suc env lb left n addr e = rw e

parsed-ok : (b : Bool) (url : Text) {url' : Text} → parsed b url ≡ ok url' → url' ≡ url
unfolding parsed
parsed-ok true url e = cc
parsed-ok false url e = cc

module _ (env : Env) (lb : Balancer) (sized : IsSized lb) (some_left : lb.size ≢ 0) where
  resolve_loop-Serves :
      (left : ℕ) (n : Controller) (url : Text)
      → (resolve_loop env lb left n).0 ≡ ok url
      → Serves n lb.ips url
  unfolding resolve_loop is_healthy
  resolve_loop-Serves zero n url e = cc
  resolve_loop-Serves (suc left) n url e =
      let (addr, drawn, at) = next_instance-ok lb (env.draw n.events) sized some_left in
      let step = resolve_loop-suc env lb left n addr drawn in
      elim (Bool-cases (is_healthy n addr)) [
        | inl well ↦ (
          addr,
          env.draw n.events % lb.size,
          at,
          well,
          parsed-ok (env.parses (watchdog_url addr)) (watchdog_url addr)
              (ground (arith, well, step)),
        )
        | inr ill ↦ resolve_loop-Serves left (asked n) url (ground (arith, ill, step))
      ]

  resolve_loop_none :
      (left : ℕ) (n : Controller)
      → NoneHealthy n lb.ips
      → resolve_loop env lb left n
        ≡ (err (text "healthy instance not found"), record n { events = n.events + left })
  unfolding resolve_loop is_healthy
  resolve_loop_none zero n ill =
      ap (λ (t : ℕ). (err (text "healthy instance not found"), record n { events = t }))
        (plus_zero n.events)
  resolve_loop_none (suc left) n ill =
      let (addr, drawn, at) = next_instance-ok lb (env.draw n.events) sized some_left in
      rw (resolve_loop-suc env lb left n addr drawn, get_elem?-All _ lb.ips _ ill at)
        (resolve_loop_none left (asked n) ill
          ∙ ap (λ (t : ℕ). (err (text "healthy instance not found"), record n { events = t }))
              (plus_suc n.events left))

  resolve_loop_all :
      (left : ℕ) (n : Controller)
      → ((url : Text) → env.parses url ≡ true)
      → AllHealthy n lb.ips
      → (url : Text) × ((resolve_loop env lb (suc left) n).0 ≡ ok url)
  unfolding parsed
  resolve_loop_all left n parses well =
      let (addr, drawn, at) = next_instance-ok lb (env.draw n.events) sized some_left in
      (
        watchdog_url addr,
        rw (
          resolve_loop-suc env lb left n addr drawn,
          get_elem?-All _ lb.ips _ well at,
          parses (watchdog_url addr),
        ),
      )

max_tries-suc : (k : ℕ) → max_tries k ≡ suc (max_tries k - 1)
max_tries-suc k = ground arith

-- An empty balancer fails at the first try.
resolve_loop_empty :
    (env : Env) (lb : Balancer) (left : ℕ) (n : Controller)
    → lb.size ≡ 0
    → resolve_loop env lb (suc left) n ≡ (err (text "no ips for instance"), asked n)
unfolding resolve_loop try_address next_instance
resolve_loop_empty env lb left n e = ground arith

-- The whole call, for a service with the balancer `lb`.
resolve_found :
    (env : Env) (service : Text) (n : Controller) (lb : Balancer)
    → load service n.instances_map ≡ some lb
    → resolve_service_endpoint env service n ≡ resolve_loop env lb (suc (max_tries lb.size - 1)) n
unfolding resolve_service_endpoint resolve_in size
resolve_found env service n lb e = rw (e, resolve_in, ← max_tries-suc lb.size)

resolve_unknown :
    (env : Env) (service : Text) (n : Controller)
    → load service n.instances_map ≡ none
    → resolve_service_endpoint env service n ≡ (err (text "service not found: " ++ service), n)
unfolding resolve_service_endpoint resolve_in
resolve_unknown env service n e = rw e

pub addresses-found :
    (service : Text) (n : Controller) (lb : Balancer)
    → load service n.instances_map ≡ some lb
    → addresses service n ≡ lb.ips
addresses-found service n lb e = ground (arith, e)

-- An endpoint that the controller gives for a service is that of an address of the service which
-- its health table calls healthy, whatever is drawn.
pub resolve_service_endpoint-Serves :
    (env : Env) (service url : Text) (n : Controller)
    → IsCounted n
    → (resolve_service_endpoint env service n).0 ≡ ok url
    → Serves n (addresses service n) url
resolve_service_endpoint-Serves env service url n v e =
    elim (Option-cases (load service n.instances_map)) [
      | inl missing ↦ absurd (ground (arith, resolve_unknown env service n missing))
      | inr (lb, found) ↦
          let sized = load-AllSized service n.instances_map lb v.sized found in
          let left : ℕ = max_tries lb.size - 1 in
          elim (ℕ_discrete lb.size 0) [
            | yes z ↦ absurd (
                ground
                  (arith, resolve_found env service n lb found, resolve_loop_empty env lb left n z))
            | no some_left ↦ rw (addresses-found service n lb found) (
                resolve_loop-Serves env lb sized some_left (suc left) n url
                  (ground (arith, resolve_found env service n lb found)))
          ]
    ]

-- A call that finds no healthy address of the service: an unknown service draws nothing, one without
-- an address is given up at the first draw, and any other is given up after as many draws as it has
-- addresses, or five if it has fewer.
abbrev pub GivenUp : Text → Controller → Outcome Text × Controller → Type 0
GivenUp service n p =
    ((load service n.instances_map ≡ none) × (p ≡ (err (text "service not found: " ++ service), n)))
    ⊎ ((lb : Balancer) × (load service n.instances_map ≡ some lb)
        × (((lb.ips ≡ [])
              × (p ≡ (err (text "no ips for instance"), record n { events = n.events + 1 })))
            ⊎ ((tries : ℕ) × (5 ≤ tries)
                × (length lb.ips ≤ tries)
                × ((tries ≡ 5) ⊎ (tries ≡ length lb.ips))
                × (p ≡ (
                  err (text "healthy instance not found"),
                  record n { events = n.events + tries },
                )))))

-- When the health table calls no address of the service healthy, the call ends with an error, with no
-- endpoint and no panic: at once for an unknown service, at the first draw for one without an
-- address, and otherwise after exactly as many draws as the larger of 5 and the number of its
-- addresses, if the count of instances and that of each balancer are right.
pub resolve_service_endpoint_none :
    (env : Env) (service : Text) (n : Controller)
    → IsCounted n
    → All (λ addr. is_healthy n addr ≡ false) (addresses service n)
    → GivenUp service n (resolve_service_endpoint env service n)
resolve_service_endpoint_none env service n v ill =
    elim (Option-cases (load service n.instances_map)) [
      | inl missing ↦ inl (missing, resolve_unknown env service n missing)
      | inr (lb, found) ↦
          let sized = load-AllSized service n.instances_map lb v.sized found in
          let left : ℕ = max_tries lb.size - 1 in
          let call = resolve_found env service n lb found in
          inr (
            lb,
            found,
            elim (ℕ_discrete lb.size 0) [
              | yes z ↦ inl (
                nil_of_length lb.ips (omega (arith, z, sized.counted)),
                call ∙ resolve_loop_empty env lb left n z,
              )
              | no some_left ↦ inr (
                suc left,
                omega (arith, five_tries lb.size),
                omega (arith, enough_tries lb.size, sized.counted),
                exact_tries lb.size (length lb.ips) sized.counted,
                call
                    ∙ resolve_loop_none env lb sized some_left (suc left) n
                        (rw (addresses-found service n lb found) at ill),
              )
            ],
          )
    ]

pub GivenUp-err :
    (service : Text) (n : Controller) (p : Outcome Text × Controller)
    → GivenUp service n p
    → (e : Text) × (p.0 ≡ err e)
GivenUp-err service n p (inl (missing, e)) = (_, ap (λ (q : Outcome Text × Controller). q.0) e)
GivenUp-err service n p (inr (lb, found, inl (none_left, e))) =
    (_, ap (λ (q : Outcome Text × Controller). q.0) e)
GivenUp-err service n p (inr (lb, found, inr (tries, five, enough, exact, e))) =
    (_, ap (λ (q : Outcome Text × Controller). q.0) e)

-- When the service has an address and the health table calls all of them healthy, the call gives
-- an endpoint, provided that `url.Parse` accepts it.
pub resolve_service_endpoint_ok :
    (env : Env) (service : Text) (n : Controller)
    → IsCounted n
    → addresses service n ≢ []
    → ((url : Text) → env.parses url ≡ true)
    → All (λ addr. is_healthy n addr ≡ true) (addresses service n)
    → (url : Text) × ((resolve_service_endpoint env service n).0 ≡ ok url)
resolve_service_endpoint_ok env service n v known parses well =
    elim (Option-cases (load service n.instances_map)) [
      | inl missing ↦ absurd (known (ground (arith, missing)))
      | inr (lb, found) ↦
          let sized = load-AllSized service n.instances_map lb v.sized found in
          let addrs = addresses-found service n lb found in
          let left : ℕ = max_tries lb.size - 1 in
          rw (resolve_found env service n lb found) (
            resolve_loop_all env lb sized
              (λ z. known (addrs ∙ nil_of_length lb.ips (omega (arith, z, sized.counted)))) left n
              parses (rw addrs at well))
    ]
