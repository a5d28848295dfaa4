-- ===== src/Network/Manager.antt =====
-- pkg/network/manager.go: the registry of constructors of network controllers. A controller that has
-- been made is its operations with its state.
use ukfaas.Prelude.{Option, none, some, List, [], ◌∷◌, ◌++◌}
use ukfaas.Prelude.Text.{Text, text, text_eq}
use ukfaas.Prelude.Map.{Map, load, store}
use ukfaas.Prelude.Exec.{Outcome, ok, err, panic, blocked}
use ukfaas.Network.Controller.{Controller, Env, Opt, new_internal_network_controller}
use ukfaas.Network.Caddy.{Gateway, CaddyController, new_caddy_controller}
use ukfaas.Network.Api.{NetworkController, internal, caddy}

pub record Made : Type 1 where
  pub api : NetworkController
  pub state : api.State

-- `NetworkControllerConstructor`, on its options.
abbrev pub Constructor : Type 1
Constructor = List Opt → Outcome Made

made_internal : Env → Outcome Controller → Outcome Made
made_internal env (ok n) = ok (record { api = internal env; state = n })
made_internal env (err e) = err e
made_internal env panic = panic
made_internal env blocked = blocked

made_caddy : (G : Gateway) → Outcome (CaddyController G) → Outcome Made
made_caddy G (ok c) = ok (record { api = caddy G; state = c })
made_caddy G (err e) = err e
made_caddy G panic = panic
made_caddy G blocked = blocked

unfoldable pub register_network_controller :
    Text → Constructor → Map Text Constructor → Map Text Constructor
register_network_controller nc_type constructor registry = store nc_type constructor registry

-- The registry after the package's `init`; the Caddy server is in the state `world` when it is asked.
unfoldable pub network_controllers : Env → (G : Gateway) → G.World → Map Text Constructor
unfolding made_internal made_caddy
network_controllers env G world =
    (text "internal", λ opts. made_internal env (new_internal_network_controller opts))
    ∷ (text "caddy", λ opts. made_caddy G (new_caddy_controller G world).0)
    ∷ []

constructed : Text → List Opt → Option Constructor → Outcome Made
constructed nc_type opts none = err (text "network Controller " ++ (nc_type ++ text " not found"))
constructed nc_type opts (some constructor) = constructor opts

unfoldable pub get_network_controller : Map Text Constructor → Text → List Opt → Outcome Made
unfolding constructed
get_network_controller registry nc_type opts = constructed nc_type opts (load nc_type registry)
