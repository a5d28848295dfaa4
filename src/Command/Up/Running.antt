-- ===== src/Command/Up/Running.antt =====
-- `runUp`, once the services have been started.
use ukfaas.Prelude.{ℕ, ◌≡◌, ◌≢◌, ◌⊎◌, refl, true, false, none, List, [], ◌∷◌, ◌++◌, inl, inr}
use ukfaas.Prelude.Lists.{Bool-cases}
use ukfaas.Prelude.Text.{Text, text}
use ukfaas.Prelude.Map.{Map, load, NodupKeys}
use ukfaas.Prelude.Exec.{Outcome, ok, err, blocked}
use ukfaas.Command.Install.{ukfaas_wd}
use ukfaas.Command.Up.{
  nat_eq, Service, Proxy, Faasd, Run, allocated, allocate, configured, parse_up_flags,
  load_service_definition, start_services, wait_for_signal, serve, closed_after, run_up,
}
use ukfaas.Command.Up.Ports.{Allocated, Placement, entries, placements, allocate_lem}

-- Nothing has been started.
abbrev pub idle : Run
idle = record { running = []; proxies = []; closed = false }

module _ (F : Faasd) (services : List Service) (left : List Service) where
  -- The proxies run, and a signal ends the services, without which the command waits.
  abbrev pub Serves : Outcome (Unit {0}) × Run → Type 0
  Serves r =
      NodupKeys (entries (placements services))
      × (r.1.proxies ≡ entries (placements services))
      × (((F.signalled ≡ true) × (r.0 ≡ ok tt) × (r.1.running ≡ (F.remove left services).1))
          ⊎ ((F.signalled ≡ false) × (r.0 ≡ blocked) × (r.1.running ≡ left)))

  -- A port is repeated: no proxy runs, and what has been started goes on.
  abbrev pub Abandons : Outcome (Unit {0}) × Run → Type 0
  Abandons r =
      (before : List Placement) × (p : Placement) × (later : List Placement) × (placements services
        ≡ before ++ p ∷ later)
      × (load p.1.port (entries before) ≢ none)
      × (r.0 ≡ err (allocated p.1.port))
      × (r.1.proxies ≡ [])
      × (r.1.running ≡ left)

  abbrev started_run : Run
  started_run = record idle { running = left }

  run_served : Outcome (Unit {0}) × Run
  run_served = closed_after (serve F services started_run)

  served_done :
      (m : Map ℕ Proxy)
      → allocate services [] ≡ ok m
      → F.signalled ≡ true
      → run_served
        ≡ (ok tt, record { running = (F.remove left services).1; proxies = m; closed = true })
  unfolding run_served serve wait_for_signal closed_after
  served_done m e signal = rw (e, wait_for_signal, signal) refl

  served_waits :
      (m : Map ℕ Proxy)
      → allocate services [] ≡ ok m
      → F.signalled ≡ false
      → run_served ≡ (blocked, record { running = left; proxies = m; closed = false })
  unfolding run_served serve wait_for_signal closed_after
  served_waits m e signal = rw (e, wait_for_signal, signal) refl

  served_refused :
      (x : Text)
      → allocate services [] ≡ err x
      → run_served ≡ (err x, record { running = left; proxies = []; closed = true })
  unfolding run_served serve closed_after
  served_refused x e = rw e refl

  served :
      Allocated (placements services) [] (allocate services [])
      → Serves run_served ⊎ Abandons run_served
  served (inl (nodup, e)) = elim (Bool-cases F.signalled) [
    | inl signal ↦
        rw (served_done (entries (placements services)) e signal)
          (inl (nodup, refl, inl (signal, refl, refl)))
    | inr quiet ↦
        rw (served_waits (entries (placements services)) e quiet)
          (inl (nodup, refl, inr (quiet, refl, refl)))
  ]
  served (inr (before, p, later, split, nodup, taken, e)) =
      rw (served_refused (allocated p.1.port) e)
        (inr (before, p, later, split, taken, refl, refl, refl))

-- When the services have been started, `runUp` either runs a proxy for each of their ports until a
-- signal, upon which it asks the supervisor to remove the services, or, if a port is repeated,
-- returns an error with no proxy running and leaves every service that was started running. A signal,
-- if one comes, comes after the ports have been gone through.
pub run_up-started :
    (F : Faasd) (path : Text) (config : F.Config) (services left : List Service)
    → F.file_flag ≡ ok path
    → F.load_compose_file ukfaas_wd path ≡ ok config
    → F.parse_compose config ≡ ok services
    → F.new_supervisor (text "/run/containerd/containerd.sock") ≡ ok tt
    → F.start services ≡ (ok tt, left)
    → Serves F services left (run_up F idle) ⊎ Abandons F services left (run_up F idle)
unfolding run_up parse_up_flags configured load_service_definition start_services run_served
run_up-started F path config services left h1 h2 h3 h4 h5 =
    rw (h1, h2, h3, h4, h5) (served F services left (allocate_lem services))
