-- ===== src/Command/Provider/Serving.antt =====
-- From the start of the provider to any later moment: the invariants of the two stores hold.
use ukfaas.Prelude.{◌≡◌, refl, sym, subst, List, [], Bool, false, arith}
use ukfaas.Prelude.Text.{Text, text, text_eq}
use ukfaas.Prelude.Map.{Map, load-nil}
use ukfaas.Prelude.Exec.{Outcome, ok, ok-injective, pure, lift, ◌>>=◌}
use ukfaas.Prelude.Ensures.{Ensures, Ensures-bind, Ensures-bind_of}
use ukfaas.Network.Manager.{Made, Constructor, get_network_controller}
use ukfaas.Functions.{Registry, FunctionMetaData, FunctionStore}
use ukfaas.Functions.Opening.{new_store, new_function_store}
use ukfaas.Functions.Targets
use ukfaas.Functions.Targets.{AllTargets, HasTargets, run-HasTargets}
use ukfaas.Machines.Platform.{Host}
use ukfaas.Machines.{new_machine_store}
use ukfaas.Machines.Counting.{IsKeyed}
use ukfaas.Machines.Remove.Wiring.{Wired}
use ukfaas.Machines.Remove.Removing.{StopsMachines}
use ukfaas.Machines.Running.{Operation, run}
use ukfaas.Machines.Running.Keeping.{IsSound, run-IsSound}
use ukfaas.Command.Provider.{Surroundings, Files, Provider, start_provider, provider_of}

module _ (R : Registry) (H : Host) where
  -- No entry in any map, and both locks are free.
  pub record IsNew (p : Provider R H) : Type 0 where
    pub functions : p.server.functions.function_meta_data_map ≡ []
    pub images : p.server.functions.image_store ≡ []
    pub machines : p.server.machines.machine_instance_map ≡ []
    pub ifaces : p.server.machines.machine_network_map ≡ []
    pub unlocked : p.server.machines.lock ≡ false
    pub idle : p.server.machines.health_check_lock ≡ false

  abbrev IsEmpty : FunctionStore R → Type 0
  IsEmpty s = (s.function_meta_data_map ≡ []) × (s.image_store ≡ [])

  new_store-IsEmpty : (w : R.World) → Ensures {S = Files} IsEmpty (pure (new_store R w))
  new_store-IsEmpty w = record {
    at = λ s x e. subst IsEmpty (ok-injective {a = new_store R w} e) (refl, refl);
  }

  new_function_store-IsEmpty :
      (client handle : Outcome (Unit {0})) (w : R.World)
      → Ensures {S = Files} IsEmpty (new_function_store R client handle w)
  unfolding new_function_store
  new_function_store-IsEmpty client handle w = search (Ensures-bind, new_store-IsEmpty) depth 8

  provider_of-IsNew :
      (wd : Text) (always : Bool) (functions : FunctionStore R) (hw : H.World) (made : Made)
      → IsEmpty functions
      → IsNew (provider_of R H wd always functions hw made)
  unfolding provider_of new_machine_store
  provider_of-IsNew wd always functions hw made empty = record {
    functions = empty.0;
    images = empty.1;
    machines = refl;
    ifaces = refl;
    unlocked = refl;
    idle = refl;
  }

  made-IsNew :
      (wd : Text) (always : Bool) (functions : FunctionStore R) (hw : H.World) (made : Made)
      → IsEmpty functions
      → Ensures {S = Files} IsNew (pure (provider_of R H wd always functions hw made))
  made-IsNew wd always functions hw made empty = record {
    at = λ s x e.
        subst IsNew (ok-injective {a = provider_of R H wd always functions hw made} e)
          (provider_of-IsNew wd always functions hw made empty);
  }

  opened-IsNew :
      (wd sock : Text) (always : Bool) (out : Surroundings) (registry : Map Text Constructor)
      (fw : R.World) (hw : H.World)
      → Ensures {S = Files} IsNew (
          new_function_store R (out.containerd sock (text "default")) out.handle fw >>= λ functions.
          lift (get_network_controller registry (text "internal") []) >>= λ made.
          pure (provider_of R H wd always functions hw made))
  opened-IsNew wd sock always out registry fw hw =
      Ensures-bind_of IsEmpty
        (new_function_store R (out.containerd sock (text "default")) out.handle fw) _
        (new_function_store-IsEmpty (out.containerd sock (text "default")) out.handle fw)
        λ functions empty.
          Ensures-bind (lift (get_network_controller registry (text "internal") [])) _
            λ made. made-IsNew wd always functions hw made empty

  no_target : AllTargets R []
  no_target service meta e = absurd (ground (arith, load-nil {V = FunctionMetaData R} service, e))

  start_provider-IsNew :
      (out : Surroundings) (registry : Map Text Constructor) (fw : R.World) (hw : H.World)
      → Ensures IsNew (start_provider R H out registry fw hw)
  unfolding start_provider
  start_provider-IsNew out registry fw hw = search (Ensures-bind, opened-IsNew) depth 20

  -- Whatever the calls to the outside return at its start, and whichever controllers are registered, a
  -- provider that serves has, after any calls of its machine store and any of its function store,
  -- failing or not, machines that stand under their own ids, no id twice, each with a network
  -- interface, and only functions whose packages convert to a target, if `Stop` returns nil or the
  -- machine that it was given, no longer running.
  pub start_provider-IsSound :
      StopsMachines H
      → (out : Surroundings) (registry : Map Text Constructor) (fw : R.World) (hw : H.World)
        (files : Files) (p : Provider R H)
      → (start_provider R H out registry fw hw files).0 ≡ ok p
      → (calls : List Operation) (changes : List Targets.Call)
      → IsSound H p.network (run H p.network calls p.server.machines)
        × HasTargets R (Targets.run R p.server.functions changes)
  start_provider-IsSound h out registry fw hw files p e calls changes =
      let new = (start_provider-IsNew out registry fw hw).at files p e in
      (
        run-IsSound H p.network h calls p.server.machines (
            subst (λ ms. IsKeyed ms × Wired ms p.server.machines.machine_network_map)
              (sym new.machines) (tt, λ uid e. load-nil uid)),
        run-HasTargets R p.server.functions changes
            (subst (AllTargets R) (sym new.functions) no_target),
      )
