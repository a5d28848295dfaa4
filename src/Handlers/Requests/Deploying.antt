-- ===== src/Handlers/Requests/Deploying.antt =====
-- What a request to deploy a function leaves in the two stores.
use ukfaas.Prelude.{◌≡◌, ◌≢◌, refl, ap, ◌∙◌, subst, ◌⊎◌, inl, inr, true, false, some, [], ◌∷◌}
use ukfaas.Prelude.Lists.{pair_eq, Option-cases}
use ukfaas.Prelude.Text.{Text, text_eq}
use ukfaas.Prelude.Map.{Map, store}
use ukfaas.Prelude.Exec.{Outcome, ok, err, panic, blocked, Exec, pure}
use ukfaas.Network.Api.{NetworkController}
use ukfaas.Functions.{FunctionDeployment, Registry, FunctionMetaData}
use ukfaas.Functions.Add.{add_function}
use ukfaas.Functions.Adding.{IsAdded, Added, add_function_lem}
use ukfaas.Functions.Add.Fetching.{entries}
use ukfaas.Machines.Platform.{Machine, Host, Iface}
use ukfaas.Machines.{MachineStore}
use ukfaas.Machines.Launch.{new_machine}
use ukfaas.Machines.Create.Creating.{Created, create_machine-Created}
use ukfaas.Handlers.Namespaces.{Labeller, get_request_namespace, valid_namespace}
use ukfaas.Handlers.Requests.{
  nothing, Reply, Server, Files, catching, refuse, validate_secrets, deploy,
}

module _ (R : Registry) (H : Host) (N : NetworkController) where
  new_machine-Created :
      (meta : FunctionMetaData R) (s : MachineStore H N)
      → s.lock ≡ false
      → Created H N s (new_machine R H N meta s)
  unfolding new_machine
  new_machine-Created meta s free = elim (Option-cases (R.as_target meta.pack)) [
    | inl e ↦ rw (e, new_machine) (inr (λ a q. cc, (refl, refl)))
    | inr (targ, e) ↦ rw (e, new_machine) (create_machine-Created H N _ s free)
  ]

  abbrev machine_entries : MachineStore H N → Map Text Machine × Map Text Iface
  machine_entries s = (s.machine_instance_map, s.machine_network_map)

  -- The reply is 200 alone, the function is recorded and a machine is entered; or the reply is
  -- another, no machine is entered, and the function may be recorded all the same.
  abbrev pub Deployed : FunctionDeployment → Server R H N → Outcome Reply × Server R H N → Type 0
  Deployed req s (o, s') =
      ((o ≡ ok ((200, nothing) ∷ []))
        × ((meta : FunctionMetaData R) × IsAdded R req meta s.functions s'.functions)
        × ((m : Machine) × (i : Iface) × (machine_entries s'.machines ≡ (
          store m.uid m s.machines.machine_instance_map,
          store m.uid i s.machines.machine_network_map,
        ))))
      ⊎ ((o ≢ ok ((200, nothing) ∷ []))
          × (machine_entries s'.machines ≡ machine_entries s.machines)
          × ((entries R s'.functions ≡ entries R s.functions)
              ⊎ ((meta : FunctionMetaData R) × IsAdded R req meta s.functions s'.functions)))

  abbrev answer : Outcome (Unit {0}) → Exec (Server R H N) Reply
  answer o = catching R H N o (refuse R H N 400) (λ _. pure ((200, nothing) ∷ []))

  answer-Deployed :
      (req : FunctionDeployment) (meta : FunctionMetaData R) (s t : Server R H N)
      (o : Outcome (Unit {0}))
      → IsAdded R req meta s.functions t.functions
      → Created H N s.machines (o, t.machines)
      → Deployed req s (answer o t)
  answer-Deployed req meta s t (ok _) added (inl (m, i, q, free, entered, wired)) =
      inl (refl, (meta, added), (m, i, pair_eq entered wired))
  answer-Deployed req meta s t (ok _) added (inr (fails, same)) = absurd (fails tt refl)
  answer-Deployed req meta s t (err e) added (inl (m, i, q, free, e1, e2)) = absurd cc
  answer-Deployed req meta s t (err e) added (inr (fails, same)) =
      inr (λ q. cc, pair_eq same.0 same.1, inr (meta, added))
  answer-Deployed req meta s t panic added (inl (m, i, q, free, e1, e2)) = absurd cc
  answer-Deployed req meta s t panic added (inr (fails, same)) =
      inr (λ q. cc, pair_eq same.0 same.1, inr (meta, added))
  answer-Deployed req meta s t blocked added (inl (m, i, q, free, e1, e2)) = absurd cc
  answer-Deployed req meta s t blocked added (inr (fails, same)) =
      inr (λ q. cc, pair_eq same.0 same.1, inr (meta, added))

  rest : FunctionDeployment → Outcome (FunctionMetaData R) → Exec (Server R H N) Reply
  rest req o = catching R H N o (refuse R H N 400) λ added t.
      answer (new_machine R H N added t.machines).0
        (record t { machines = (new_machine R H N added t.machines).1 })

  rest-Deployed :
      (req : FunctionDeployment) (s t : Server R H N) (o : Outcome (FunctionMetaData R))
      → s.machines.lock ≡ false
      → t.machines ≡ s.machines
      → Added R req s.functions (o, t.functions)
      → Deployed req s (rest req o t)
  unfolding rest
  rest-Deployed req s t (ok meta) free same (inl (meta', q, added)) =
      let made = new_machine R H N meta t.machines in
      answer-Deployed req meta' s (record t { machines = made.1 }) made.0 added
        (subst (λ (b : MachineStore H N). Created H N b made) same
          (new_machine-Created meta t.machines (ap (λ (b : MachineStore H N). b.lock) same ∙ free)))
  rest-Deployed req s t (ok meta) free same (inr (fails, kept)) = absurd (fails meta refl)
  rest-Deployed req s t (err e) free same (inl (meta, q, x)) = absurd cc
  rest-Deployed req s t (err e) free same (inr (fails, kept)) =
      inr (λ q. cc, ap machine_entries same, inl kept)
  rest-Deployed req s t panic free same (inl (meta, q, x)) = absurd cc
  rest-Deployed req s t panic free same (inr (fails, kept)) =
      inr (λ q. cc, ap machine_entries same, inl kept)
  rest-Deployed req s t blocked free same (inl (meta, q, x)) = absurd cc
  rest-Deployed req s t blocked free same (inr (fails, kept)) =
      inr (λ q. cc, ap machine_entries same, inl kept)

  -- A request to deploy, with a valid namespace and the secrets at hand and no machine being
  -- created: either the reply is 200, the function is recorded and one machine is entered for it; or
  -- the reply is not 200, no machine is entered, and either no entry of the function store changes or
  -- the function is recorded all the same.
  pub deploy_lem :
      (L : Labeller) (F : Files) (mount : Text) (req : FunctionDeployment) (s : Server R H N)
      → valid_namespace L (get_request_namespace req.namespace) ≡ ok true
      → validate_secrets F (F.join mount (get_request_namespace req.namespace)) req.secrets ≡ ok tt
      → s.machines.lock ≡ false
      → Deployed req s (deploy R H N L F mount (some (ok req)) s)
  unfolding deploy rest
  deploy_lem L F mount req s valid secrets free = rw valid (
      rw secrets (
        rest-Deployed req s (record s { functions = (add_function R req s.functions).1 })
          (add_function R req s.functions).0 free refl (add_function_lem R req s.functions)))
