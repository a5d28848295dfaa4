-- ===== src/Handlers/Requests.antt =====
-- deploy.go, delete.go, scale.go and update.go: a handler works on both stores and returns what it
-- writes, in order.
pub mod Refusing
pub mod Stopping
pub mod Deploying
use ukfaas.Prelude.{
  ℕ, zero, ◌≡◌, Bool, true, false, ◌&&◌, not, Option, none, some, List, [], ◌∷◌, ◌++◌, map,
}
use ukfaas.Prelude.Lists.{eqb, if◌then◌else◌}
use ukfaas.Prelude.Text.{Text, text, ◌==◌, text_eq}
use ukfaas.Prelude.Map.{Map}
use ukfaas.Prelude.Exec.{Outcome, ok, err, panic, blocked, Exec, ◌>>=◌, ◌>>◌, pure, fail, gets}
use ukfaas.Network.Api.{NetworkController}
use ukfaas.Functions.{
  FunctionDeployment, FunctionStatus, Registry, FunctionMetaData, FunctionStore, function_exists,
  delete_function, get_function, get_function_status, list_functions,
}
use ukfaas.Functions.Add.{add_function}
use ukfaas.Functions.Update.{update_function}
use ukfaas.Machines.Platform.{Host}
use ukfaas.Machines.{MachineStore, get_replicas, get_available_replicas}
use ukfaas.Machines.Launch.{new_machine}
use ukfaas.Machines.Scale.{scale_machines_to, stop_all_machines}
use ukfaas.Handlers.Namespaces.{
  Labeller, default_function_namespace, get_request_namespace, valid_namespace,
}

pub data Body : Type 0 where
  nothing : Body
  message : Text → Body
  function : FunctionStatus → Body
  functions : List FunctionStatus → Body

-- Each status written, with the body after it; a handler that writes nothing answers 200.
abbrev pub Reply : Type 0
Reply = List (ℕ × Body)

-- The body of a request: none, or what `json.Unmarshal` made of it.
abbrev pub Request {ℓ} : Type ℓ → Type ℓ
Request A = Option (Outcome A)

pub record DeleteFunctionRequest : Type 0 where
  pub function_name : Text
  pub namespace : Text

pub record ScaleServiceRequest : Type 0 where
  pub service_name : Text
  pub replicas : ℕ
  pub namespace : Text

-- A file system: `path.Join`, and whether `os.Stat` of a path has no error.
pub record Files : Type 0 where
  pub join : Text → Text → Text
  pub stat : Text → Bool

unfoldable pub validate_secrets : Files → Text → List Text → Outcome (Unit {0})
validate_secrets F mount [] = ok tt
validate_secrets F mount (secret ∷ secrets) =
    let rest = validate_secrets F mount secrets in
    if F.stat (F.join mount secret) then rest else err (text "unable to find secret: " ++ secret)

module _ (R : Registry) (H : Host) (N : NetworkController) where
  pub record Server : Type 0 where
    pub functions : FunctionStore R
    pub machines : MachineStore H N

  abbrev pub on_functions {ℓ} : {A : Type ℓ} → Exec (FunctionStore R) A → Exec Server A
  on_functions m s = let (r, f) = m s.functions in (r, record s { functions = f })

  abbrev pub on_machines {ℓ} : {A : Type ℓ} → Exec (MachineStore H N) A → Exec Server A
  on_machines m s = let (r, t) = m s.machines in (r, record s { machines = t })

  module _ {ℓ κ} {A : Type ℓ} {B : Type κ} where
    -- `if err != nil`
    abbrev pub catching : Outcome A → (Text → Exec Server B) → (A → Exec Server B) → Exec Server B
    catching (ok a) failed next s = next a s
    catching (err e) failed next s = failed e s
    catching panic failed next s = (panic, s)
    catching blocked failed next s = (blocked, s)

    abbrev pub attempt :
        Exec Server A → (Text → Exec Server B) → (A → Exec Server B) → Exec Server B
    attempt m failed next s = catching (m s).0 failed next (m s).1

  -- `http.Error`
  abbrev pub refuse : ℕ → Text → Exec Server Reply
  refuse code e = pure ((code, message e) ∷ [])

  abbrev pub found {ℓ} : {A : Type ℓ} → Request A → (A → Exec Server Reply) → Exec Server Reply
  found none next = refuse 400 (text "expected a body")
  found (some r) next = catching r (refuse 400) next

  abbrev pub in_namespace : Labeller → Text → Exec Server Reply → Exec Server Reply
  in_namespace L namespace next =
      catching (valid_namespace L namespace) (refuse 400)
        (λ valid. if valid then next else refuse 400 (text "namespace not valid"))

  unfoldable pub deploy : Labeller → Files → Text → Request FunctionDeployment → Exec Server Reply
  deploy L F secret_mount_path body = found body λ req.
      let namespace = get_request_namespace req.namespace in
      in_namespace L namespace (
        catching (validate_secrets F (F.join secret_mount_path namespace) req.secrets) (refuse 400)
          λ _. attempt (on_functions (add_function R req)) (refuse 400) λ added.
            attempt (on_machines (new_machine R H N added)) (refuse 400)
              λ _. pure ((200, nothing) ∷ []))

  -- An error is reported and the handler goes on.
  abbrev pub reported : (Text → Text) → Exec Server (Unit {0}) → Exec Server Reply
  reported msg m = attempt m (λ e. refuse 500 (msg e)) (λ _. pure [])

  abbrev pub not_deleted : Text → Text → Text
  not_deleted name e = text "Function " ++ (name ++ (text " not deleted: " ++ e))

  delete_found : Text → Exec Server Reply
  delete_found name = do
    stopped ← reported (not_deleted name) (on_machines (stop_all_machines H N name))
    deleted ← reported (not_deleted name) (on_functions (delete_function R name))
    pure (stopped ++ deleted)

  unfoldable pub delete : Labeller → Request DeleteFunctionRequest → Exec Server Reply
  unfolding delete_found
  delete L body = found body λ req.
      let name = req.function_name in
      in_namespace L (get_request_namespace req.namespace) (do
        exists ← gets (λ s. function_exists R name s.functions)
        if exists
            then delete_found name
            else refuse 404 (text "service " ++ (name ++ text " not found")))

  abbrev pub ignored : Exec Server (Unit {0}) → Exec Server (Unit {0})
  ignored m = attempt m (λ _. pure tt) (λ _. pure tt)

  abbrev pub not_scaled : Text → Text → Text
  not_scaled name e = text "Function " ++ (name ++ (text " not scaled: " ++ e))

  -- The error of `NewMachine` is dropped.
  scale_found : Text → ℕ → FunctionMetaData R → Exec Server Reply
  scale_found name replicas meta = do
    current ← gets (λ s. get_replicas H N name s.machines)
    if eqb current 0 then ignored (on_machines (new_machine R H N meta)) else pure tt
    reported (not_scaled name) (on_machines (scale_machines_to H N name replicas))

  unfoldable pub scale : Labeller → Request ScaleServiceRequest → Exec Server Reply
  unfolding scale_found
  scale L body = found body λ req.
      let name = req.service_name in
      in_namespace L (get_request_namespace req.namespace) (
        attempt (on_functions (get_function R name))
          (λ e. refuse 404 (text "service " ++ (name ++ (text " not found : " ++ e))))
          (scale_found name req.replicas))

  -- The status that `GetFunctionStatus` returned beside its error is empty.
  rescale : Text → Exec Server Reply
  rescale name = attempt (on_machines (scale_machines_to H N name 0)) (refuse 400) (λ _. pure [])

  -- The two goroutines, the first of them first; the error is the one that was written last.
  renew : Text → FunctionMetaData R → Exec Server Reply
  unfolding rescale
  renew name updated = do
    ignored (on_machines (stop_all_machines H N []))
    attempt (on_machines (new_machine R H N updated)) (refuse 400) (λ _. rescale name)

  update_missing : FunctionDeployment → Exec Server Reply
  unfolding rescale renew
  update_missing req =
      attempt (on_functions (update_function R req)) (refuse 400) λ (updated, update_image).
        if update_image then renew req.service updated else rescale req.service

  -- The test of the error is `err != nil`.
  unfoldable pub update : Labeller → Request FunctionDeployment → Exec Server Reply
  unfolding update_missing
  update L body = found body λ req.
      let name = req.service in
      in_namespace L (get_request_namespace req.namespace) (
        attempt (on_functions (get_function_status R name)) (λ _. update_missing req)
          (λ _. refuse 404 (text "service " ++ (name ++ text " not found"))))
