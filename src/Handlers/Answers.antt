-- ===== src/Handlers/Answers.antt =====
-- list.go, status.go and invoke.go: what a handler or the resolver of the proxy answers. The network
-- controller that the resolver uses is the one of the machine store.
pub mod Resolving
pub mod Agreeing
use ukfaas.Prelude.{ℕ, ◌≡◌, Bool, true, false, none, some, List, [], ◌∷◌, ◌++◌, map}
use ukfaas.Prelude.Lists.{eqb, if◌then◌else◌}
use ukfaas.Prelude.Text.{Text, text, ◌==◌, text_eq}
use ukfaas.Prelude.Exec.{Outcome, ok, err, panic, blocked, Exec, ◌>>=◌, ◌>>◌, pure, fail, gets}
use ukfaas.Network.Api.{NetworkController}
use ukfaas.Functions.{
  FunctionStatus, Registry, FunctionMetaData, get_function, get_function_status, list_functions,
}
use ukfaas.Machines.Platform.{Host}
use ukfaas.Machines.{MachineStore, get_replicas, get_available_replicas}
use ukfaas.Machines.Launch.{new_machine}
use ukfaas.Handlers.Namespaces.{Labeller, default_function_namespace, get_request_namespace}
use ukfaas.Handlers.Requests.{
  Body, nothing, Reply, Server, on_functions, on_machines, attempt, in_namespace,
}

-- `strings.Contains(name, ".")` and `strings.TrimSuffix`
unfoldable pub has_dot : Text → Bool
has_dot [] = false
has_dot (c ∷ name) = let rest = has_dot name in if eqb c 46 then true else rest

unfoldable pub trim_suffix : Text → Text → Text
trim_suffix [] suffix = []
trim_suffix (c ∷ name) suffix =
    let rest = c ∷ trim_suffix name suffix in if (c ∷ name) == suffix then [] else rest

unfoldable pub actual_function_name : Text → Text
actual_function_name name =
    if has_dot name then trim_suffix name (text "." ++ default_function_namespace) else name

module _ (R : Registry) (H : Host) (N : NetworkController) where
  abbrev pub on_network {ℓ} : {A : Type ℓ} → Exec N.State A → Exec (Server R H N) A
  on_network m s =
      let (r, n) = m s.machines.network in
      (r, record s { machines = record s.machines { network = n } })

  abbrev pub counted : MachineStore H N → FunctionStatus → FunctionStatus
  counted machines f = record f {
    replicas = get_replicas H N f.name machines;
    available_replicas = get_available_replicas H N f.name machines;
  }

  -- `MakeReadHandler`; the namespace comes from the query.
  unfoldable pub read : Labeller → Text → Exec (Server R H N) Reply
  read L namespace = in_namespace R H N L (get_request_namespace namespace) (
      gets
        λ s. (200, Body.functions (map (counted s.machines) (list_functions R s.functions))) ∷ [])

  -- `MakeFunctionStatusHandler`
  unfoldable pub function_status : Labeller → Text → Text → Exec (Server R H N) Reply
  function_status L namespace service = in_namespace R H N L (get_request_namespace namespace) (
      attempt R H N (on_functions R H N (get_function_status R service))
        (λ _. pure ((404, nothing) ∷ []))
        (λ status. gets λ s. (200, Body.function (counted s.machines status)) ∷ []))

  -- `Resolve`
  resolve_found : Text → FunctionMetaData R → Exec (Server R H N) Text
  resolve_found name meta = do
    current ← gets (λ s. get_replicas H N name s.machines)
    if eqb current 0 then on_machines R H N (new_machine R H N meta) else pure tt
    on_network (N.resolve_service_endpoint name)

  unfoldable pub resolve : Text → Exec (Server R H N) Text
  unfolding resolve_found
  resolve function_name =
      let name = actual_function_name function_name in
      attempt R H N (on_functions R H N (get_function R name))
        (λ _. fail (name ++ text " not found")) (resolve_found name)
