-- ===== src/Handlers/Answers/Resolving.antt =====
-- What the proxy's resolver answers.
use ukfaas.Prelude.{
  ℕ, suc, ◌≡◌, ◌≢◌, refl, sym, ap, ◌∙◌, inl, inr, true, false, none, some, [], ◌∷◌, ◌++◌, arith,
}
use ukfaas.Prelude.Lists.{eqb_no, length, length-append, Option-cases}
use ukfaas.Prelude.Text.{Text, text, text_eq}
use ukfaas.Prelude.Map.{load}
use ukfaas.Prelude.Exec.{ok, err}
use ukfaas.Network.Api.{NetworkController, internal}
use ukfaas.Network.Controller.{Env, resolve_service_endpoint}
use ukfaas.Network.Controller.Counts.{IsCounted, addresses}
use ukfaas.Network.Controller.Resolve.{Serves, resolve_service_endpoint-Serves}
use ukfaas.Functions.{Registry, FunctionMetaData, found_or, get_function}
use ukfaas.Machines.Platform.{Host}
use ukfaas.Machines.{get_replicas}
use ukfaas.Handlers.Namespaces.{default_function_namespace}
use ukfaas.Handlers.Answers.{has_dot, trim_suffix, actual_function_name, resolve, resolve_found}
use ukfaas.Handlers.Requests.{Server}

longer : (c : ℕ) (name suffix : Text) → c ∷ (name ++ suffix) ≢ suffix
longer c name suffix e =
    let lengths : suc (length (name ++ suffix)) ≡ length suffix = ap length e in
    absurd (omega (arith, lengths, length-append name suffix))

trim_suffix-append : (name suffix : Text) → trim_suffix (name ++ suffix) suffix ≡ name
unfolding trim_suffix
trim_suffix-append [] [] = refl
trim_suffix-append [] (c ∷ suffix) = ground arith
trim_suffix-append (c ∷ name) suffix =
    ground (arith, longer c name suffix, trim_suffix-append name suffix)

has_dot-append : (name rest : Text) → has_dot (name ++ (46 ∷ rest)) ≡ true
unfolding has_dot
has_dot-append [] rest = refl
has_dot-append (c ∷ name) rest = ground (arith, has_dot-append name rest)

actual_function_name-suffix :
    (name : Text)
    → has_dot name ≡ false
    → actual_function_name (name ++ (text "." ++ default_function_namespace))
      ≡ actual_function_name name
unfolding actual_function_name
actual_function_name-suffix name h =
    rw (has_dot-append name default_function_namespace)
      (rw h (trim_suffix-append name (text "." ++ default_function_namespace)))

module _ (R : Registry) (H : Host) (N : NetworkController) where
  -- A name without a dot resolves alike with and without the default namespace behind it.
  pub resolve-suffix :
      (name : Text) (s : Server R H N)
      → has_dot name ≡ false
      → resolve R H N (name ++ (text "." ++ default_function_namespace)) s ≡ resolve R H N name s
  unfolding resolve
  resolve-suffix name s h = rw (actual_function_name-suffix name h) refl

module _ (R : Registry) (H : Host) (env : Env) where
  abbrev Store : Type 0
  Store = Server R H (internal env)

  resolve_missing :
      (name : Text) (s : Store)
      → load (actual_function_name name) s.functions.function_meta_data_map ≡ none
      → resolve R H (internal env) name s
        ≡ (err (actual_function_name name ++ text " not found"), s)
  unfolding resolve get_function found_or
  resolve_missing name s e = rw e refl

  resolve_known :
      (name : Text) (s : Store) (meta : FunctionMetaData R)
      → load (actual_function_name name) s.functions.function_meta_data_map ≡ some meta
      → get_replicas H (internal env) (actual_function_name name) s.machines ≢ 0
      → (resolve R H (internal env) name s).0
        ≡ (resolve_service_endpoint env (actual_function_name name) s.machines.network).0
  unfolding resolve resolve_found get_function found_or
  resolve_known name s meta e some_run = rw e (
      rw (eqb_no (get_replicas H (internal env) (actual_function_name name) s.machines) some_run)
        refl)

  -- Over the internal controller, an endpoint that the resolver gives for a function with a replica
  -- is that of an address of the service which the health table calls healthy.
  pub resolve-Serves :
      (name url : Text) (s : Store)
      → IsCounted s.machines.network
      → get_replicas H (internal env) (actual_function_name name) s.machines ≢ 0
      → (resolve R H (internal env) name s).0 ≡ ok url
      → Serves s.machines.network (addresses (actual_function_name name) s.machines.network) url
  resolve-Serves name url s v some_run e =
      elim (Option-cases (load (actual_function_name name) s.functions.function_meta_data_map)) [
        | inl missing ↦ absurd (ground (arith, resolve_missing name s missing))
        | inr (meta, found) ↦
            resolve_service_endpoint-Serves env (actual_function_name name) url s.machines.network v
              (sym (resolve_known name s meta found some_run) ∙ e)
      ]
