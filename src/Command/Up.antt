-- ===== src/Command/Up.antt =====
-- cmd/up.go: the services of the compose file, and a proxy for each of their ports. What the code
-- takes from faasd is the parameter `Faasd`; the files of passwords stand with the install.
pub mod Ports
pub mod Running
use ukfaas.Prelude.{
  ℕ, ◌*◌, Bool, true, false, Option, none, some, List, [], ◌∷◌, ◌++◌, ℕ_discrete, map,
}
use ukfaas.Prelude.Lists.{if◌then◌else◌}
use ukfaas.Prelude.Text.{Text, text, Eq, ◌==◌, text_eq}
use ukfaas.Prelude.Map.{Map, load, store}
use ukfaas.Prelude.Exec.{
  Outcome, ok, err, panic, blocked, Exec, pure, fail, lift, modify, wrap, after, ◌>>=◌, ◌>>◌,
}
use ukfaas.Prelude.Integer.{decimal}
use ukfaas.Command.Install.{ukfaas_wd}

instance abbrev pub nat_eq : Eq ℕ
nat_eq = record { dec = ℕ_discrete }

-- `faasd.ServicePort`
pub record ServicePort : Type 0 where
  pub port : ℕ
  pub target_port : ℕ
  pub host_ip : Text

-- `faasd.Service`, of which the code here reads the name and the ports.
pub record Service : Type 0 where
  pub name : Text
  pub ports : List ServicePort

-- The arguments of `faasd.NewProxy`, the timeout in nanoseconds.
pub record Proxy : Type 0 where
  pub upstream : Text
  pub port : ℕ
  pub host_ip : Text
  pub timeout : ℕ

pub record UpConfig : Type 0 where
  pub compose_file_path : Text
  pub working_dir : Text

-- faasd's compose files and supervisor, and the flags of the command. `start` and `remove` give what
-- runs afterwards beside their error; `signalled` says whether a signal ever arrives.
pub record Faasd : Type 1 where
  pub Config : Type 0
  pub file_flag : Outcome Text
  pub load_compose_file : Text → Text → Outcome Config
  pub parse_compose : Config → Outcome (List Service)
  pub new_supervisor : Text → Outcome (Unit {0})
  pub start : List Service → Outcome (Unit {0}) × List Service
  pub remove : List Service → List Service → Option Text × List Service
  pub signalled : Bool

pub record Run : Type 0 where
  pub running : List Service
  pub proxies : Map ℕ Proxy
  pub closed : Bool

unfoldable pub host_or_any : Text → Text
host_or_any [] = text "0.0.0.0"
host_or_any (c ∷ ip) = c ∷ ip

unfoldable pub proxy_of : Text → ServicePort → Proxy
unfolding host_or_any
proxy_of name p = record {
  upstream = name ++ (text ":" ++ decimal p.target_port);
  port = p.port;
  host_ip = host_or_any p.host_ip;
  timeout = 60 * 1000000000;
}

unfoldable pub allocated : ℕ → Text
allocated port = text "port " ++ (decimal port ++ text " already allocated")

unfoldable pub allocate_port :
    Text → ServicePort → Map ℕ Proxy → Option Proxy → Outcome (Map ℕ Proxy)
unfolding proxy_of allocated
allocate_port name p proxies none = ok (store p.port (proxy_of name p) proxies)
allocate_port name p proxies (some taken) = err (allocated p.port)

unfoldable pub and_then :
    Outcome (Map ℕ Proxy) → (Map ℕ Proxy → Outcome (Map ℕ Proxy)) → Outcome (Map ℕ Proxy)
and_then (ok m) f = f m
and_then (err e) f = err e
and_then panic f = panic
and_then blocked f = blocked

-- The inner loop, over the ports of one service.
unfoldable pub allocate_ports : Text → List ServicePort → Map ℕ Proxy → Outcome (Map ℕ Proxy)
unfolding allocate_port and_then
allocate_ports name [] proxies = ok proxies
allocate_ports name (p ∷ ps) proxies =
    and_then (allocate_port name p proxies (load p.port proxies)) (λ m. allocate_ports name ps m)

-- The outer loop.
unfoldable pub allocate : List Service → Map ℕ Proxy → Outcome (Map ℕ Proxy)
unfolding allocate_ports and_then
allocate [] proxies = ok proxies
allocate (svc ∷ services) proxies =
    and_then (allocate_ports svc.name svc.ports proxies) (λ m. allocate services m)

unfoldable pub configured : Outcome Text → Outcome UpConfig
configured (ok path) = ok (record { compose_file_path = path; working_dir = ukfaas_wd })
configured (err e) = err (text "can not parse compose file path flag: " ++ e)
configured panic = panic
configured blocked = blocked

-- The deferred call closes the supervisor when the function returns.
unfoldable pub closed_after : Outcome (Unit {0}) × Run → Outcome (Unit {0}) × Run
closed_after (ok u, r) = (ok u, record r { closed = true })
closed_after (err e, r) = (err e, record r { closed = true })
closed_after (panic, r) = (panic, record r { closed = true })
closed_after (blocked, r) = (blocked, r)

module _ (F : Faasd) where
  unfoldable pub parse_up_flags : Outcome UpConfig
  unfolding configured
  parse_up_flags = configured F.file_flag

  unfoldable pub load_service_definition : UpConfig → Exec Run (List Service)
  load_service_definition cfg = do
    service_config ← lift (F.load_compose_file cfg.working_dir cfg.compose_file_path)
    lift (F.parse_compose service_config)

  unfoldable pub start_services : List Service → Exec Run (Unit {0})
  start_services services r =
      let (o, running) = F.start services in (o, record r { running = running })

  -- The goroutine that waits for a signal, which removes the services; an error is only printed.
  unfoldable pub wait_for_signal : List Service → Exec Run (Unit {0})
  wait_for_signal services r =
      if F.signalled
      then (ok tt, record r { running = (F.remove r.running services).1 })
      else (blocked, r)

  -- The ports, and then the goroutine that waits for a signal, which comes when they are allocated.
  unfoldable pub serve : List Service → Exec Run (Unit {0})
  unfolding wait_for_signal
  serve services = do
    proxies ← lift (allocate services [])
    modify λ r. record r { proxies = proxies }
    wait_for_signal services

  unfoldable pub run_up : Exec Run (Unit {0})
  unfolding parse_up_flags load_service_definition start_services serve closed_after
  run_up = do
    cfg ← lift parse_up_flags
    services ← load_service_definition cfg
    lift (F.new_supervisor (text "/run/containerd/containerd.sock"))
    start_services services
    λ r. closed_after (serve services r)
