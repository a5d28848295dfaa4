-- ===== src/Network/Api.antt =====
-- pkg/api/network/controller.go: the interface under which the machine store and the invoke resolver
-- use a network controller, and the two controllers as one. RunHealthChecks, an endless loop that
-- only the start of the provider calls, is left out.
use ukfaas.Prelude.{ℕ}
use ukfaas.Prelude.Text.{Text}
use ukfaas.Prelude.Exec.{Outcome, Exec}
use ukfaas.Network.Controller
use ukfaas.Network.Controller.{Controller, Env}
use ukfaas.Network.Caddy
use ukfaas.Network.Caddy.{Gateway, CaddyController}

pub record NetworkController : Type 1 where
  pub State : Type 0
  pub add_service_ip : Text → Text → Exec State (Unit {0})
  pub delete_service_ip : Text → Text → Exec State (Unit {0})
  pub delete_service : Text → Exec State (Unit {0})
  pub resolve_service_endpoint : Text → Exec State Text
  pub available_ips : Text → State → Outcome ℕ

abbrev pub internal : Env → NetworkController
internal env = record {
  State = Controller;
  add_service_ip = Controller.add_service_ip env;
  delete_service_ip = Controller.delete_service_ip;
  delete_service = Controller.delete_service;
  resolve_service_endpoint = Controller.resolve_service_endpoint env;
  available_ips = Controller.available_ips;
}

abbrev pub caddy : Gateway → NetworkController
caddy G = record {
  State = CaddyController G;
  add_service_ip = Caddy.add_service_ip G;
  delete_service_ip = Caddy.delete_service_ip G;
  delete_service = Caddy.delete_service G;
  resolve_service_endpoint = λ service c. (Caddy.resolve_service_endpoint G service c, c);
  available_ips = Caddy.available_ips G;
}
