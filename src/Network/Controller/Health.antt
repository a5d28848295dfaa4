-- ===== src/Network/Controller/Health.antt =====
-- `RunHealthChecks` of the internal controller: what one round of the loop does.
use ukfaas.Prelude.{
  ℕ, ◌+◌, ◌<◌, ◌≡◌, subst, sym, refl, false, none, some, List, [], ◌∷◌, map, arith,
}
use ukfaas.Prelude.Lists.{All}
use ukfaas.Prelude.Text.{Text, text, text_eq}
use ukfaas.Prelude.Map.{load, store, load-store, load-store_self}
use ukfaas.Prelude.Exec.{ok, panic}
use ukfaas.Network.Balancer.{u64_mod}
use ukfaas.Network.Controller.{
  Controller, Env, Key, ip, key_eq, check_health, check_entry, run_health_checks, delete_service_ip,
}
use ukfaas.Network.Controller.Deleting.{delete_service_ip_unknown}

-- The table holds the answer of some check of the address.
abbrev pub IsChecked : Env → Controller → Text → Type 0
IsChecked env n addr =
    (t : ℕ) × (load (ip addr) n.health_check_table
      ≡ some (check_health env t addr (text "/health")))

module _ (env : Env) (live : (t : ℕ) → env.cancelled t ≡ false) where
  abbrev checked : Text → Controller → Controller
  checked addr n = record n {
    health_check_table =
        store (ip addr) (check_health env n.events addr (text "/health")) n.health_check_table;
    events = n.events + 1;
  }

  run_health_checks-cons :
      (addr : Text) (ks : List Key) (n : Controller)
      → n.instance_count + 1 < u64_mod
      → run_health_checks env (ip addr ∷ ks) n ≡ run_health_checks env ks (checked addr n)
  unfolding run_health_checks check_entry
  run_health_checks-cons addr ks n h = ground (arith, live n.events)

  checked-IsChecked :
      (addr other : Text) (n : Controller)
      → IsChecked env n other
      → IsChecked env (checked addr n) other
  checked-IsChecked addr other n (t, e) =
      let health = check_health env n.events addr (text "/health") in
      let l = load-store (ip other) (ip addr) health n.health_check_table in
      elim (key_eq.dec (ip addr) (ip other)) [
        | yes p ↦ (n.events, ground (arith, l, p))
        | no q ↦ (t, ground (arith, l, e))
      ]

  -- A round keeps what has been checked, and what no key of the round names.
  round-IsChecked :
      (addrs : List Text) (other : Text) (n : Controller)
      → n.instance_count + 1 < u64_mod
      → IsChecked env n other
      → IsChecked env (run_health_checks env (map ip addrs) n).1 other
  unfolding run_health_checks
  round-IsChecked [] other n h c = c
  round-IsChecked (addr ∷ addrs) other n h c =
      rw (run_health_checks-cons addr (map ip addrs) n h)
        (round-IsChecked addrs other (checked addr n) h (checked-IsChecked addr other n c))

  -- A round that is not cancelled ends without a panic, as long as the count of instances is below
  -- the largest number, and leaves for each address that it visits the answer of a check.
  pub run_health_checks_lem :
      (addrs : List Text) (n : Controller)
      → n.instance_count + 1 < u64_mod
      → ((run_health_checks env (map ip addrs) n).0 ≡ ok tt)
        × All (IsChecked env (run_health_checks env (map ip addrs) n).1) addrs
  run_health_checks_lem [] n h = unfold run_health_checks in (refl, tt)
  run_health_checks_lem (addr ∷ addrs) n h =
      let health = check_health env n.events addr (text "/health") in
      let first = load-store_self (ip addr) health n.health_check_table in
      let rest = run_health_checks_lem addrs (checked addr n) h in
      subst (λ r. (r.0 ≡ ok tt) × All (IsChecked env r.1) (addr ∷ addrs))
        (sym (run_health_checks-cons addr (map ip addrs) n h))
        (rest.0, (round-IsChecked addrs addr (checked addr n) h (n.events, first), rest.1))

  -- After an address of an unknown service has been deleted from a controller that counts no
  -- instance, the next round that visits an entry panics: its delay divides by the count plus one,
  -- which has wrapped to 0.
  pub run_health_checks-delete_service_ip :
      (service addr first : Text) (ks : List Key) (n : Controller)
      → load service n.instances_map ≡ none
      → n.instance_count ≡ 0
      → (run_health_checks env (ip first ∷ ks) (delete_service_ip service addr n).1).0 ≡ panic
  unfolding run_health_checks check_entry
  run_health_checks-delete_service_ip service addr first ks n e h =
      let n' = (delete_service_ip service addr n).1 in
      ground (arith, live n'.events, (delete_service_ip_unknown service addr n e h).1)
