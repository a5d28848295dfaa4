-- ===== src/Handlers/Requests/Stopping.antt =====
-- What the requests to delete and to scale a function leave of its replicas, and what they answer.
use ukfaas.Prelude.{
  ℕ, ◌≤◌, ◌≡◌, refl, ◌⊎◌, inl, inr, ℕ_discrete, ◌+◌, false, true, none, some, [], ◌∷◌, ◌++◌, arith,
}
use ukfaas.Prelude.Lists.{leb, eqb_no, eqb, Bool-cases, Option-cases}
use ukfaas.Prelude.Text.{Text, text, text_eq}
use ukfaas.Prelude.Map.{load, remove}
use ukfaas.Prelude.Exec.{Outcome, ok, err, panic, blocked, Exec, ◌>>=◌, ◌>>◌, pure}
use ukfaas.Network.Api.{NetworkController}
use ukfaas.Functions.{
  Registry, FunctionMetaData, is_some, function_exists, found_or, get_function, delete_function,
}
use ukfaas.Machines.Platform.{Host}
use ukfaas.Machines.{MachineStore, get_replicas}
use ukfaas.Machines.Counting.{IsKeyed}
use ukfaas.Machines.Launch.{new_machine}
use ukfaas.Machines.Remove.Removing.{StopsMachines}
use ukfaas.Machines.Scale.{scale_machines_to, stop_all_machines}
use ukfaas.Machines.Scale.Scaling.{
  IsAt, Waits, NoError, scale_machines_to_lem, scale_machines_to_down, stop_all_machines_lem,
}
use ukfaas.Handlers.Namespaces.{Labeller, get_request_namespace, valid_namespace}
use ukfaas.Handlers.Requests.{
  Body, Reply, DeleteFunctionRequest, ScaleServiceRequest, Server, catching, refuse, reported,
  not_deleted, not_scaled, on_functions, on_machines, delete, delete_found, scale, scale_found,
}

le_or_lt : (a b : ℕ) → (a ≤ b) ⊎ (b + 1 ≤ a)
le_or_lt a b = elim (Bool-cases (leb a b)) [
  | inl e ↦ inl (ground (arith, e))
  | inr e ↦ inr (ground (arith, e))
]

module _ (R : Registry) (H : Host) (N : NetworkController) where
  -- The function is gone, it has no replica, and the reply is the empty one; unless a machine's
  -- removal panicked or waits for ever.
  abbrev pub Deleted : Text → Server R H N → Outcome Reply × Server R H N → Type 0
  Deleted name s (o, s') =
      (o ≡ panic)
      ⊎ (o ≡ blocked)
      ⊎ ((o ≡ ok [])
          × (s'.functions.function_meta_data_map ≡ remove name s.functions.function_meta_data_map)
          × IsAt H N name 0 s.machines.maps s'.machines)

  -- The rest of the handler once the machines have been stopped.
  abbrev rest : Text → Outcome (Unit {0}) → Exec (Server R H N) Reply
  rest name o = do
    stopped ← catching R H N o (λ e. refuse R H N 500 (not_deleted R H N name e)) (λ _. pure [])
    deleted ← reported R H N (not_deleted R H N name) (on_functions R H N (delete_function R name))
    pure (stopped ++ deleted)

  rest-Deleted :
      (name : Text) (s : Server R H N) (o : Outcome (Unit {0})) (t : MachineStore H N)
      → NoError H N o
      → (o ≡ panic) ⊎ IsAt H N name 0 s.machines.maps t
      → Deleted name s (rest name o (record s { machines = t }))
  unfolding delete_function
  rest-Deleted name s (ok _) t h (inl e) = absurd cc
  rest-Deleted name s (ok _) t h (inr at) = inr (inr (refl, refl, at))
  rest-Deleted name s (err e) t h stopped = absurd (h e refl)
  rest-Deleted name s panic t h stopped = inl refl
  rest-Deleted name s blocked t h stopped = inr (inl refl)

  stopped-Deleted :
      (name : Text) (s : Server R H N) (p : Outcome (Unit {0}) × MachineStore H N)
      → NoError H N p.0
      → Waits H N s.machines p
        ⊎ ((s.machines.health_check_lock ≡ false)
            × ((p.0 ≡ panic) ⊎ IsAt H N name 0 s.machines.maps p.1))
      → Deleted name s (rest name p.0 (record s { machines = p.1 }))
  stopped-Deleted name s p h (inr (free, stopped)) = rest-Deleted name s p.0 p.1 h stopped
  stopped-Deleted name s p h (inl (taken, e)) = inr (inl (rw e refl))

  delete_found-Deleted :
      StopsMachines H
      → (name : Text) (s : Server R H N) → IsKeyed s.machines.machine_instance_map
      → Deleted name s (delete_found R H N name s)
  unfolding delete_found stop_all_machines
  delete_found-Deleted h name s u =
      stopped-Deleted name s (stop_all_machines H N name s.machines)
        (scale_machines_to_lem H N name 0 s.machines).0
        (stop_all_machines_lem H N h name s.machines u)

  -- A request to delete, in a valid namespace: a function that the store does not have is answered by
  -- 404, and nothing changes; one that it has is gone afterwards, with its machines, and the reply is
  -- empty, unless the program panics or waits for ever. The goroutines run one after another, `Stop`
  -- returns nil or the machine that it was given, no longer running, and machines stand under their
  -- own ids.
  pub delete_lem :
      StopsMachines H
      → (L : Labeller) (req : DeleteFunctionRequest) (s : Server R H N)
      → valid_namespace L (get_request_namespace req.namespace) ≡ ok true
      → IsKeyed s.machines.machine_instance_map
      → ((load req.function_name s.functions.function_meta_data_map ≡ none)
          × (delete R H N L (some (ok req)) s ≡ (
            ok (
                (404, Body.message (text "service " ++ (req.function_name ++ text " not found")))
                ∷ []),
            s,
          )))
        ⊎ (((old : FunctionMetaData R) × (load req.function_name s.functions.function_meta_data_map
                ≡ some old))
            × Deleted req.function_name s (delete R H N L (some (ok req)) s))
  unfolding delete function_exists is_some
  delete_lem h L req s valid u =
      elim (Option-cases (load req.function_name s.functions.function_meta_data_map)) [
        | inl e ↦ inl (e, rw valid (rw e refl))
        | inr (old, e) ↦
            inr ((old, e), rw valid (rw e (delete_found-Deleted h req.function_name s u)))
      ]

  pub IsSilent : Outcome Reply → Type 0
  IsSilent o = (o ≡ panic) ⊎ (o ≡ blocked) ⊎ (o ≡ ok [])

  scaled-IsSilent :
      (name : Text) (s : Server R H N) (o : Outcome (Unit {0}))
      → NoError H N o
      → IsSilent
          (catching R H N o (λ e. refuse R H N 500 (not_scaled R H N name e)) (λ _. pure []) s).0
  unfolding IsSilent
  scaled-IsSilent name s (ok _) h = inr (inr refl)
  scaled-IsSilent name s (err e) h = absurd (h e refl)
  scaled-IsSilent name s panic h = inl refl
  scaled-IsSilent name s blocked h = inr (inl refl)

  abbrev then_scale : Text → ℕ → Exec (Server R H N) Reply
  then_scale name n =
      reported R H N (not_scaled R H N name) (on_machines R H N (scale_machines_to H N name n))

  then_scale-IsSilent : (name : Text) (n : ℕ) (s : Server R H N) → IsSilent (then_scale name n s).0
  then_scale-IsSilent name n s =
      let scaled = scale_machines_to H N name n s.machines in
      scaled-IsSilent name (record s { machines = scaled.1 }) scaled.0
        (scale_machines_to_lem H N name n s.machines).0

  ignored-IsSilent :
      (name : Text) (n : ℕ) (o : Outcome (Unit {0})) (s : Server R H N)
      → IsSilent ((catching R H N o (λ _. pure tt) (λ _. pure tt) >> then_scale name n) s).0
  unfolding IsSilent
  ignored-IsSilent name n (ok _) s = then_scale-IsSilent name n s
  ignored-IsSilent name n (err e) s = then_scale-IsSilent name n s
  ignored-IsSilent name n panic s = inl refl
  ignored-IsSilent name n blocked s = inr (inl refl)

  scale_found-IsSilent :
      (name : Text) (n : ℕ) (meta : FunctionMetaData R) (s : Server R H N)
      → IsSilent (scale_found R H N name n meta s).0
  unfolding scale_found
  scale_found-IsSilent name n meta s =
      elim (Bool-cases (eqb (get_replicas H N name s.machines) 0)) [
        | inl e ↦
            let made = new_machine R H N meta s.machines in
            rw e (ignored-IsSilent name n made.0 (record s { machines = made.1 }))
        | inr e ↦ rw e (then_scale-IsSilent name n s)
      ]

  -- What becomes of the replicas when there are as many as asked for or more: the program panics, the
  -- call waits for ever at the lock of the health checks, or the target is reached.
  abbrev pub AtTarget : ScaleServiceRequest → Server R H N → Outcome Reply × Server R H N → Type 0
  AtTarget req before (o, s) =
      (o ≡ panic)
      ⊎ ((before.machines.health_check_lock ≡ true) × (o ≡ blocked))
      ⊎ IsAt H N req.service_name req.replicas before.machines.maps s.machines

  abbrev then_reply : ScaleServiceRequest → Outcome (Unit {0}) → Exec (Server R H N) Reply
  then_reply req o =
      catching R H N o (λ e. refuse R H N 500 (not_scaled R H N req.service_name e)) (λ _. pure [])

  reached-AtTarget :
      (req : ScaleServiceRequest) (before s : Server R H N) (o : Outcome (Unit {0}))
      → (o ≡ panic) ⊎ IsAt H N req.service_name req.replicas before.machines.maps s.machines
      → AtTarget req before (then_reply req o s)
  reached-AtTarget req before s (ok _) (inl e) = absurd cc
  reached-AtTarget req before s (ok _) (inr at) = inr (inr at)
  reached-AtTarget req before s (err x) (inl e) = absurd cc
  reached-AtTarget req before s (err x) (inr at) = inr (inr at)
  reached-AtTarget req before s panic at = inl refl
  reached-AtTarget req before s blocked (inl e) = absurd cc
  reached-AtTarget req before s blocked (inr at) = inr (inr at)

  scaled-AtTarget :
      (req : ScaleServiceRequest) (s : Server R H N) (p : Outcome (Unit {0}) × MachineStore H N)
      → Waits H N s.machines p
        ⊎ ((s.machines.health_check_lock ≡ false)
            × ((p.0 ≡ panic) ⊎ IsAt H N req.service_name req.replicas s.machines.maps p.1))
      → AtTarget req s (then_reply req p.0 (record s { machines = p.1 }))
  scaled-AtTarget req s p (inr (free, at)) =
      reached-AtTarget req s (record s { machines = p.1 }) p.0 at
  scaled-AtTarget req s p (inl (taken, e)) = inr (inl (taken, rw e refl))

  -- The replicas of a known function: none, fewer than asked for, or what is said above.
  abbrev pub Scaled : ScaleServiceRequest → Server R H N → Outcome Reply × Server R H N → Type 0
  Scaled req before p =
      let replicas = get_replicas H N req.service_name before.machines in
      (replicas ≡ 0) ⊎ (replicas + 1 ≤ req.replicas) ⊎ AtTarget req before p

  scale_found-Scaled :
      StopsMachines H
      → (req : ScaleServiceRequest) (meta : FunctionMetaData R) (s : Server R H N)
      → IsKeyed s.machines.machine_instance_map
      → Scaled req s (scale_found R H N req.service_name req.replicas meta s)
  unfolding scale_found
  scale_found-Scaled h req meta s u =
      let replicas = get_replicas H N req.service_name s.machines in
      elim (ℕ_discrete replicas 0) [
        | yes z ↦ inl z
        | no some_run ↦ elim (le_or_lt req.replicas replicas) [
          | inr less ↦ inr (inl less)
          | inl le ↦ inr (
              inr (
                rw (eqb_no replicas some_run) (
                  scaled-AtTarget req s
                    (scale_machines_to H N req.service_name req.replicas s.machines)
                    (scale_machines_to_down H N h req.service_name req.replicas s.machines u le))))
        ]
      ]

  -- A request to scale, in a valid namespace, if `Stop` returns nil or the machine that it was given,
  -- no longer running, and machines stand under their own ids. For a function that the store does not
  -- have the answer is 404, and nothing changes. For one that it has, the reply is empty, whatever
  -- failed, or the program panics or waits for ever; and if it has a replica and no fewer than asked
  -- for, the target is reached, or the program panics, or the lock of the health checks was held and
  -- the request waits for ever. The goroutines run one after another.
  pub scale_lem :
      StopsMachines H
      → (L : Labeller) (req : ScaleServiceRequest) (s : Server R H N)
      → valid_namespace L (get_request_namespace req.namespace) ≡ ok true
      → IsKeyed s.machines.machine_instance_map
      → ((load req.service_name s.functions.function_meta_data_map ≡ none)
          × (scale R H N L (some (ok req)) s ≡ (
            ok (
                (
                  404,
                  Body.message (
                      text "service "
                      ++ (req.service_name
                          ++ (text " not found : "
                              ++ (text "function " ++ (req.service_name ++ text " not found"))))),
                )
                ∷ []),
            s,
          )))
        ⊎ (((old : FunctionMetaData R) × (load req.service_name s.functions.function_meta_data_map
                ≡ some old))
            × IsSilent (scale R H N L (some (ok req)) s).0
            × Scaled req s (scale R H N L (some (ok req)) s))
  unfolding scale get_function found_or
  scale_lem h L req s valid u =
      elim (Option-cases (load req.service_name s.functions.function_meta_data_map)) [
        | inl e ↦ inl (e, rw valid (rw e refl))
        | inr (old, e) ↦ inr (
          (old, e),
          rw valid (rw e (scale_found-IsSilent req.service_name req.replicas old s)),
          rw valid (rw e (scale_found-Scaled h req old s u)),
        )
      ]
