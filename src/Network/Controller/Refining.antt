-- ===== src/Network/Controller/Refining.antt =====
-- The internal controller keeps the promise of a directory of bags: no sequence of calls tells the two
-- apart.
use ukfaas.Prelude.{
  ℕ, zero, suc, ◌+◌, ◌≤◌, ◌<◌, ◌≡◌, ◌≢◌, true, refl, ap, ◌∙◌, some, List, [], ◌∷◌, ◌++◌, arith,
}
use ukfaas.Prelude.Lists.{length, get_elem?}
use ukfaas.Prelude.Text.{Text, text_eq}
use ukfaas.Prelude.Exec.{ok}
use ukfaas.Network.Balancer.{int_limit}
use ukfaas.Network.Balancer.Laws.{others, occurrences}
use ukfaas.Network.Controller.{
  Controller, Env, key_eq, add_service_ip, delete_service_ip, delete_service, is_healthy,
  resolve_service_endpoint, watchdog_url,
}
use ukfaas.Network.Controller.Counts.{addresses, IsCounted}
use ukfaas.Network.Controller.Adding.{add_service_ip-IsCounted, add_service_ip-addresses}
use ukfaas.Network.Controller.Deleting.{delete_service_ip-IsCounted, delete_service_ip-addresses}
use ukfaas.Network.Controller.Dropping.{delete_service_lem, delete_service-addresses}
use ukfaas.Network.Directory.{
  Directory, Call, adds_ip, deletes_ip, deletes_service, bag, bags, bags-change, holds, put,
  without, put_last, change, apply, DeletesPresent, AllPresent,
}
use ukfaas.Network.Directory
use ukfaas.Network.Controller.Resolve.{resolve_service_endpoint-Serves}

-- The bags that a controller keeps.
abbrev pub view : Controller → Directory
view n = bags (λ service. addresses service n)

occurrences_of_get :
    (a : Text) (i : ℕ) (xs : List Text) → get_elem? xs i ≡ some a → occurrences a xs ≢ 0
occurrences_of_get a i [] e = λ z. cc
occurrences_of_get a zero (x ∷ xs) e = ground arith
occurrences_of_get a (suc i) (x ∷ xs) e = ground (arith, occurrences_of_get a i xs e)

module _ (env : Env) where
  abbrev pub call : Controller → Call → Controller
  call n (adds_ip service addr) = (add_service_ip env service addr n).1
  call n (deletes_ip service addr) = (delete_service_ip service addr n).1
  call n (deletes_service service) = (delete_service service n).1

  unfoldable pub run : Controller → List Call → Controller
  run n [] = n
  run n (c ∷ cs) = run (call n c) cs

  abbrev Refines : Controller → Call → Controller → Type 0
  Refines n c n' =
      (view n' ≡ apply (view n) c) × IsCounted n' × (n'.instance_count ≤ n.instance_count + 1)

  call-Refines :
      (n : Controller) (c : Call)
      → IsCounted n
      → n.instance_count + 1 < int_limit
      → DeletesPresent (view n) c
      → Refines n c (call n c)
  unfolding put without holds
  call-Refines n (adds_ip service addr) v h p =
      let after = λ (other : Text). add_service_ip-addresses env service addr other n v h in
      let (done, own, kept) = add_service_ip-IsCounted env service addr n v h in
      (
        bags-change (λ s. addresses s n) (λ s. addresses s (add_service_ip env service addr n).1)
              service (addresses service n ++ addr ∷ []) (λ other. (after other).0)
            ∙ ap (λ b. change service b (view n)) (put_last addr (addresses service n)),
        kept,
        omega (arith, (after service).1),
      )
  call-Refines n (deletes_ip service addr) v h p =
      let after = λ (other : Text). delete_service_ip-addresses service addr other n v p in
      let (done, own, kept) = delete_service_ip-IsCounted service addr n v p in
      (
        bags-change (λ s. addresses s n) (λ s. addresses s (delete_service_ip service addr n).1)
            service (others addr (addresses service n)) (λ other. (after other).0),
        kept,
        omega (arith, (after service).1),
      )
  call-Refines n (deletes_service service) v h p =
      let after = λ (other : Text). delete_service-addresses service other n v in
      (
        bags-change (λ s. addresses s n) (λ s. addresses s (delete_service service n).1) service []
            (λ other. (after other).0),
        (delete_service_lem service [] n v).3,
        omega (arith, (after service).1),
      )

  -- After any calls, each of which deletes an address only where its service has it once, while the
  -- count stays below the limit of `int`, the controller has the bags that the directory has after
  -- the same calls, and its count is right.
  pub run_refines :
      (calls : List Call) (n : Controller)
      → IsCounted n
      → n.instance_count + length calls < int_limit
      → AllPresent (view n) calls
      → (view (run n calls) ≡ Directory.run (view n) calls) × IsCounted (run n calls)
  unfolding run Directory.run
  run_refines [] n v h p = (refl, v)
  run_refines (c ∷ cs) n v h p =
      let (same, kept, count) = call-Refines n c v (omega arith) p.0 in
      let rest = run_refines cs (call n c) kept (omega arith) (rw same p.1) in
      (rest.0 ∙ ap (λ d. Directory.run d cs) same, rest.1)

  -- An endpoint that the controller gives for a service after such calls is that of an address which
  -- its health table calls healthy, and which the directory holds for the service after the same calls.
  pub resolve_service_endpoint-holds :
      (calls : List Call) (n : Controller) (service url : Text)
      → IsCounted n
      → n.instance_count + length calls < int_limit
      → AllPresent (view n) calls
      → (resolve_service_endpoint env service (run n calls)).0 ≡ ok url
      → (addr : Text) × (url ≡ watchdog_url addr)
        × (is_healthy (run n calls) addr ≡ true)
        × (holds addr (Directory.run (view n) calls service) ≢ 0)
  unfolding holds
  resolve_service_endpoint-holds calls n service url v h p e =
      let (same, kept) = run_refines calls n v h p in
      let (addr, i, at, well, is) =
        resolve_service_endpoint-Serves env service url (run n calls) kept e in
      (addr, is, well, rw (← same) (occurrences_of_get addr i (addresses service (run n calls)) at))
