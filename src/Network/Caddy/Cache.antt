-- ===== src/Network/Caddy/Cache.antt =====
-- What the operations do to the addresses that the controller keeps, whatever Caddy answers.
use mathlib.Core.List.{append-nil}
use ukfaas.Prelude.{
  suc, ◌≡◌, ◌≢◌, refl, sym, ap, ◌∙◌, false, Option, none, some, List, [], ◌∷◌, ◌++◌, arith,
}
use ukfaas.Prelude.Lists.{eqb, length, All}
use ukfaas.Prelude.Text.{Text, text_eq}
use ukfaas.Prelude.Map.{Map, load, store, remove, load-store_self, load-store, load-remove}
use ukfaas.Prelude.Exec.{ok, ok-injective}
use ukfaas.Network.Directory.{Call, adds_ip, deletes_ip, deletes_service}
use ukfaas.Network.Caddy.{
  Gateway, CaddyController, host_of, without_host, watchdog_address, with_url, keep_or_drop,
  add_service_ip, delete_known, delete_service, delete_from, delete_service_ip, reload_config,
  available_from, available_ips,
}

-- No service is kept without an address.
abbrev pub AllServed : Map Text (List Text) → Type 0
AllServed cache = (service : Text) → load service cache ≢ some []

with_url_some : (o : Option (List Text)) (url : Text) → with_url o url ≢ []
unfolding with_url
with_url_some none url e = cc
with_url_some (some []) url e = cc
with_url_some (some (u ∷ urls)) url e = cc

store-AllServed :
    (service : Text) (urls : List Text) (cache : Map Text (List Text))
    → urls ≢ []
    → AllServed cache
    → AllServed (store service urls cache)
store-AllServed service urls cache h all other e =
    ground (arith, all other, load-store other service urls cache)

remove-AllServed :
    (service : Text) (cache : Map Text (List Text))
    → AllServed cache
    → AllServed (remove service cache)
remove-AllServed service cache all other e =
    ground (arith, all other, load-remove other service cache)

keep_or_drop-AllServed :
    (service : Text) (urls : List Text) (cache : Map Text (List Text))
    → AllServed cache
    → AllServed (keep_or_drop service urls cache)
unfolding keep_or_drop
keep_or_drop-AllServed service [] cache all = remove-AllServed service cache all
keep_or_drop-AllServed service (u ∷ urls) cache all =
    store-AllServed service (u ∷ urls) cache (λ e. cc) all

module _ (G : Gateway) where
  abbrev pub apply : CaddyController G → Call → CaddyController G
  apply c (adds_ip service ip) = (add_service_ip G service ip c).1
  apply c (deletes_ip service ip) = (delete_service_ip G service ip c).1
  apply c (deletes_service service) = (delete_service G service c).1

  unfoldable pub run : CaddyController G → List Call → CaddyController G
  run c [] = c
  run c (call ∷ calls) = run (apply c call) calls

  deleted_ip :
      (service ip : Text) (o : Option (List Text)) (c : CaddyController G)
      → AllServed c.service_ip_cache
      → AllServed (delete_from G service ip o c).1.service_ip_cache
  unfolding delete_from reload_config
  deleted_ip service ip none c all = all
  deleted_ip service ip (some urls) c all =
      keep_or_drop-AllServed service (without_host ip urls) c.service_ip_cache all

  deleted_service :
      (service : Text) (o : Option (List Text)) (c : CaddyController G)
      → AllServed c.service_ip_cache
      → AllServed (delete_known G service o c).1.service_ip_cache
  unfolding delete_known reload_config
  deleted_service service none c all = all
  deleted_service service (some urls) c all = remove-AllServed service c.service_ip_cache all

  apply-AllServed :
      (c : CaddyController G) (call : Call)
      → AllServed c.service_ip_cache
      → AllServed (apply c call).service_ip_cache
  unfolding add_service_ip delete_service delete_service_ip reload_config
  apply-AllServed c (adds_ip service ip) all =
      store-AllServed service _ c.service_ip_cache
        (with_url_some (load service c.service_ip_cache) (watchdog_address ip)) all
  apply-AllServed c (deletes_ip service ip) all =
      deleted_ip service ip (load service c.service_ip_cache) c all
  apply-AllServed c (deletes_service service) all =
      deleted_service service (load service c.service_ip_cache) c all

  run-served :
      (c : CaddyController G) (calls : List Call)
      → AllServed c.service_ip_cache
      → AllServed (run c calls).service_ip_cache
  unfolding run
  run-served c [] all = all
  run-served c (call ∷ calls) all = run-served (apply c call) calls (apply-AllServed c call all)

  available_from-positive :
      (service : Text) (o : Option (List Text)) → o ≢ some [] → available_from G service o ≢ ok 0
  unfolding available_from
  available_from-positive service none h e = cc
  available_from-positive service (some []) h e = h refl
  available_from-positive service (some (u ∷ urls)) h e =
      let impossible : suc (length urls) ≡ 0 = ok-injective e in absurd (omega (arith, impossible))

  -- After any calls, whatever Caddy answered to each, a service that is available has an address, if
  -- that was so before.
  pub run-AllServed :
      (c : CaddyController G) (calls : List Call) (service : Text)
      → AllServed c.service_ip_cache
      → available_ips G service (run c calls) ≢ ok 0
  unfolding available_ips
  run-AllServed c calls service all =
      available_from-positive service (load service (run c calls).service_ip_cache)
        (run-served c calls all service)

  fresh_host :
      (ip : Text) (urls : List Text)
      → All (λ url. host_of url ≢ ip) urls
      → without_host ip urls ≡ urls
  unfolding without_host
  fresh_host ip [] all = refl
  fresh_host ip (u ∷ urls) all = ground (arith, fresh_host ip urls all.1, all.0)

  without_host-append :
      (ip : Text) (xs ys : List Text)
      → without_host ip (xs ++ ys) ≡ without_host ip xs ++ without_host ip ys
  unfolding without_host
  without_host-append ip [] ys = refl
  without_host-append ip (x ∷ xs) ys = ground (arith, without_host-append ip xs ys)

  pub host_of-address :
      (ip : Text) → All (λ c. eqb c 58 ≡ false) ip → host_of (watchdog_address ip) ≡ ip
  unfolding host_of watchdog_address
  host_of-address [] all = refl
  host_of-address (c ∷ ip) all = ground (arith, all.0, host_of-address ip all.1)

  address_gone :
      (ip : Text) → All (λ c. eqb c 58 ≡ false) ip → without_host ip (watchdog_address ip ∷ []) ≡ []
  unfolding without_host
  address_gone ip plain = ground (arith, host_of-address ip plain)

  deleted_known :
      (service ip u : Text) (us us' : List Text) (t : CaddyController G)
      → load service t.service_ip_cache ≡ some us
      → without_host ip us ≡ u ∷ us'
      → load service (delete_service_ip G service ip t).1.service_ip_cache ≡ some (u ∷ us')
  unfolding delete_service_ip delete_from reload_config keep_or_drop
  deleted_known service ip u us us' t e w =
      rw e (rw w (load-store_self service (u ∷ us') t.service_ip_cache))

  -- Deleting an address just added gives the addresses of its service back, whatever Caddy answered to
  -- either call, if no address of the service was on that host and the host has no colon.
  pub delete_service_ip-add_service_ip :
      (service ip url : Text) (urls : List Text) (c : CaddyController G)
      → load service c.service_ip_cache ≡ some (url ∷ urls)
      → All (λ u. host_of u ≢ ip) (url ∷ urls)
      → All (λ b. eqb b 58 ≡ false) ip
      → load service
          (delete_service_ip G service ip (add_service_ip G service ip c).1).1.service_ip_cache
        ≡ load service c.service_ip_cache
  unfolding add_service_ip reload_config with_url
  delete_service_ip-add_service_ip service ip url urls c e fresh plain =
      let addr = watchdog_address ip in
      let stored =
        load-store_self service (with_url (load service c.service_ip_cache) addr) c.service_ip_cache
        ∙ ap (λ o. some (with_url o addr)) e in
      let left : without_host ip ((url ∷ urls) ++ (addr ∷ [])) ≡ url ∷ urls = ground (
        arith,
        without_host-append ip (url ∷ urls) (addr ∷ []),
        address_gone ip plain,
        fresh_host ip (url ∷ urls) fresh,
        append-nil (url ∷ urls),
      ) in
      deleted_known service ip url ((url ∷ urls) ++ (addr ∷ [])) urls
        (add_service_ip G service ip c).1 stored left
      ∙ sym e
