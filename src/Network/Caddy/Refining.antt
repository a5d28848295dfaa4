-- ===== src/Network/Caddy/Refining.antt =====
-- The Caddy controller keeps the promise of a directory of bags too, whatever Caddy answers.
use ukfaas.Prelude.{◌≡◌, refl, ap, ◌∙◌, false, Option, none, some, List, [], ◌∷◌, ◌++◌, map, arith}
use ukfaas.Prelude.Lists.{All, eqb, if◌then◌else◌}
use ukfaas.Prelude.Text.{Text, ◌==◌, text_eq}
use ukfaas.Prelude.Map.{Map, load, load-store, load-remove}
use ukfaas.Network.Balancer.Laws.{others}
use ukfaas.Network.Caddy.{
  Gateway, CaddyController, host_of, without_host, watchdog_address, with_url, keep_or_drop,
  add_service_ip, delete_known, delete_service, delete_from, delete_service_ip, reload_config,
}
use ukfaas.Network.Caddy.Cache.{apply, run, host_of-address}
use ukfaas.Network.Directory
use ukfaas.Network.Directory.{
  Directory, Call, adds_ip, deletes_ip, deletes_service, bag, bags, bags-change, put, put_last,
  without, change,
}

-- The hosts that are kept for a service, one for each address.
abbrev pub hosts_of : Option (List Text) → List Text
hosts_of none = []
hosts_of (some urls) = map host_of urls

abbrev pub hosts : Map Text (List Text) → Text → List Text
hosts cache service = hosts_of (load service cache)

-- The address that a call adds has no colon.
abbrev pub AddsPlain : Call → Type 0
AddsPlain (adds_ip service ip) = All (λ c. eqb c b':' ≡ false) ip
AddsPlain (deletes_ip service ip) = Unit
AddsPlain (deletes_service service) = Unit

hosts_of-with_url :
    (o : Option (List Text)) (url : Text)
    → hosts_of (some (with_url o url)) ≡ hosts_of o ++ host_of url ∷ []
unfolding with_url
hosts_of-with_url none url = refl
hosts_of-with_url (some []) url = refl
hosts_of-with_url (some (u ∷ urls)) url =
    ap (λ hs. host_of u ∷ hs) (hosts_of-with_url (some urls) url)

hosts_of-without_host :
    (ip : Text) (urls : List Text)
    → map host_of (without_host ip urls) ≡ others ip (map host_of urls)
unfolding without_host
hosts_of-without_host ip [] = refl
hosts_of-without_host ip (u ∷ urls) = ground (arith, hosts_of-without_host ip urls)

hosts-keep_or_drop :
    (service other : Text) (urls : List Text) (cache : Map Text (List Text))
    → hosts (keep_or_drop service urls cache) other
      ≡ (if service == other then map host_of urls else hosts cache other)
unfolding keep_or_drop
hosts-keep_or_drop service other [] cache = ground (arith, load-remove other service cache)
hosts-keep_or_drop service other (u ∷ urls) cache =
    ground (arith, load-store other service (u ∷ urls) cache)

module _ (G : Gateway) where
  abbrev pub view : CaddyController G → Directory
  view c = bags (hosts c.service_ip_cache)

  unchanged :
      (c : CaddyController G) (service other : Text)
      → load service c.service_ip_cache ≡ none
      → hosts c.service_ip_cache other
        ≡ (if service == other then [] else hosts c.service_ip_cache other)
  unchanged c service other e = ground (arith, e)

  added :
      (c : CaddyController G) (service ip : Text)
      → All (λ b. eqb b b':' ≡ false) ip
      → view (add_service_ip G service ip c).1 ≡ Directory.apply (view c) (adds_ip service ip)
  unfolding add_service_ip reload_config
  added c service ip plain =
      let url = watchdog_address ip in
      let o = load service c.service_ip_cache in
      bags-change (hosts c.service_ip_cache)
        (hosts (add_service_ip G service ip c).1.service_ip_cache) service (hosts_of o ++ ip ∷ [])
        (λ other. ground (
          arith,
          load-store other service (with_url o url) c.service_ip_cache,
          hosts_of-with_url o url,
          host_of-address G ip plain,
        ))
      ∙ ap (λ b. change service b (view c)) (put_last ip (hosts_of o))

  deleted_ip :
      (c : CaddyController G) (service ip : Text) (o : Option (List Text))
      → load service c.service_ip_cache ≡ o
      → view (delete_from G service ip o c).1
        ≡ change service (bag (others ip (hosts_of o))) (view c)
  unfolding delete_from reload_config
  deleted_ip c service ip none e =
      bags-change (hosts c.service_ip_cache) (hosts c.service_ip_cache) service []
        (λ other. unchanged c service other e)
  deleted_ip c service ip (some urls) e =
      bags-change (hosts c.service_ip_cache)
        (hosts (delete_from G service ip (some urls) c).1.service_ip_cache) service
        (others ip (map host_of urls))
        (λ other.
          rw (← hosts_of-without_host ip urls)
            (hosts-keep_or_drop service other (without_host ip urls) c.service_ip_cache))

  deleted_service :
      (c : CaddyController G) (service : Text) (o : Option (List Text))
      → load service c.service_ip_cache ≡ o
      → view (delete_known G service o c).1 ≡ change service (bag []) (view c)
  unfolding delete_known reload_config
  deleted_service c service none e =
      bags-change (hosts c.service_ip_cache) (hosts c.service_ip_cache) service []
        (λ other. unchanged c service other e)
  deleted_service c service (some urls) e =
      bags-change (hosts c.service_ip_cache)
        (hosts (delete_known G service (some urls) c).1.service_ip_cache) service []
        (λ other. ground (arith, load-remove other service c.service_ip_cache))

  apply-view :
      (c : CaddyController G) (call : Call)
      → AddsPlain call
      → view (apply G c call) ≡ Directory.apply (view c) call
  unfolding delete_service delete_service_ip without
  apply-view c (adds_ip service ip) plain = added c service ip plain
  apply-view c (deletes_ip service ip) plain =
      deleted_ip c service ip (load service c.service_ip_cache) refl
  apply-view c (deletes_service service) plain =
      deleted_service c service (load service c.service_ip_cache) refl

  -- After any calls that add only addresses without a colon, whatever Caddy answered to each, the
  -- hosts that the controller keeps for each service are the bag that the directory has after the
  -- same calls.
  pub run_refines_hosts :
      (calls : List Call) (c : CaddyController G)
      → All AddsPlain calls
      → view (run G c calls) ≡ Directory.run (view c) calls
  unfolding run Directory.run
  run_refines_hosts [] c plain = refl
  run_refines_hosts (call ∷ calls) c plain =
      run_refines_hosts calls (apply G c call) plain.1
      ∙ ap (λ d. Directory.run d calls) (apply-view c call plain.0)
