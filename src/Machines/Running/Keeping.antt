-- ===== src/Machines/Running/Keeping.antt =====
-- The invariant of the machine store's two maps.
use ukfaas.Prelude.{ℕ_discrete, ◌≡◌, some, ℕ, sym, subst, inl, inr, Bool, List, [], ◌∷◌, arith}
use ukfaas.Prelude.Lists.{pair_eq, Bool-cases}
use ukfaas.Prelude.Text.{Text, text, text_eq}
use ukfaas.Prelude.Map.{Map, load, store}
use ukfaas.Prelude.Exec.{Outcome, ok, err, panic, blocked, after as after_outcome, gets, ◌>>=◌}
use ukfaas.Network.Api.{NetworkController}
use ukfaas.Machines.Platform.{Machine, MachineState, Iface, Host}
use ukfaas.Machines.{
  Maps, MachineRequest, MachineStore, get_replicas, get_function_machine, required,
}
use ukfaas.Machines.Counting.{IsKeyed, first_serving-none, first_serving_lem, store-IsKeyed}
use ukfaas.Machines.Create.{create_machine, watchdog_answers}
use ukfaas.Machines.Create.Creating.{Created, create_machine-Created}
use ukfaas.Machines.Create.Locking.{create_machine_locked}
use ukfaas.Machines.Launch.{clone_machine, clone_request}
use ukfaas.Machines.Remove.{delete_machine}
use ukfaas.Machines.Remove.Removing.{StopsMachines}
use ukfaas.Machines.Remove.Wiring.{
  Wired, IsWired, store_both-Wired, store-Wired, same-IsWired, destroy_machine-IsWired,
}
use ukfaas.Machines.Create.Frames.{locked_entries}
use ukfaas.Machines.Remove.Replicas.{delete_machine_lem}
use ukfaas.Machines.Scale.{scale_machines_to, watch_health}
use ukfaas.Machines.Scale.Keeping.{scale_machines_to-Keeps, watch_health-Keeps}
use ukfaas.Machines.Scale.Checking.{watch_health-NoMore}
use ukfaas.Machines.Running.{Operation, create, clone, delete, scale, check, poll, perform, run}

module _ (H : Host) (N : NetworkController) where
  abbrev Store : Type 0
  Store = MachineStore H N

  -- The machines stand under their own ids, no id twice, and each id of one has an interface.
  abbrev pub IsSound : Store → Type 0
  IsSound s = IsKeyed s.machine_instance_map × IsWired H N s

  from_entries : (s t : Store) → locked_entries H N t ≡ locked_entries H N s → IsSound s → IsSound t
  from_entries s t e =
      subst (λ (x : Bool × Map Text Machine × Map Text Iface). IsKeyed x.1 × Wired x.1 x.2) (sym e)

  created-IsSound :
      (s : Store) (p : Outcome (Unit {0}) × Store) → Created H N s p → IsSound s → IsSound p.1
  created-IsSound s p (inl (m, i, q, free, entered, wired)) (u, w) =
      subst (λ (x : Map Text Machine × Map Text Iface). IsKeyed x.0 × Wired x.0 x.1)
        (pair_eq (sym entered) (sym wired))
        (
          store-IsKeyed m s.machine_instance_map u,
          store_both-Wired m.uid m i s.machine_instance_map s.machine_network_map w,
        )
  created-IsSound s p (inr (fails, same)) v =
      subst (λ (x : Map Text Machine × Map Text Iface). IsKeyed x.0 × Wired x.0 x.1)
        (pair_eq (sym same.0) (sym same.1)) v

  create_machine-IsSound :
      (mreq : MachineRequest) (s : Store) → IsSound s → IsSound (create_machine H N mreq s).1
  create_machine-IsSound mreq s v = elim (Bool-cases s.lock) [
    | inl e ↦ from_entries s (create_machine H N mreq s).1 (create_machine_locked H N mreq s e).1 v
    | inr e ↦ created-IsSound s (create_machine H N mreq s) (create_machine-Created H N mreq s e) v
  ]

  cloned-IsSound :
      (o : Outcome Machine) (s : Store)
      → IsSound s
      → IsSound
          (after_outcome o
            (λ m.
              gets (λ (t : Store). t.maps) >>= λ maps. create_machine H N (clone_request maps m))
            s).1
  cloned-IsSound (ok m) s v = create_machine-IsSound (clone_request s.maps m) s v
  cloned-IsSound (err e) s v = v
  cloned-IsSound panic s v = v
  cloned-IsSound blocked s v = v

  clone_machine-IsSound :
      (service : Text) (s : Store) → IsSound s → IsSound (clone_machine H N service s).1
  unfolding clone_machine get_function_machine
  clone_machine-IsSound service s v = cloned-IsSound (get_function_machine H N service s).0 s v

  marked-IsWired :
      (m : Machine) (s : Store)
      → load m.uid s.machine_instance_map ≡ some m
      → IsWired H N s
      → let m' : Machine = record m { state = MachineState.unknown } in
        IsWired H N (record s { machine_instance_map = store m.uid m' s.machine_instance_map })
  marked-IsWired m s at w =
      store-Wired m.uid (record m { state = MachineState.unknown }) s.machine_instance_map
        s.machine_network_map (λ e. ground (arith, w m.uid e, at)) w

  delete_machine-IsSound :
      StopsMachines H
      → (service : Text) (s : Store) → IsSound s
      → IsSound (delete_machine H N service s).1
  unfolding get_replicas delete_machine get_function_machine required
  delete_machine-IsSound h service s v = elim (ℕ_discrete (get_replicas H N service s) 0) [
    | yes z ↦ rw (first_serving-none H N service s.maps s.machine_instance_map z) v
    | no nz ↦
        let (m, found, fits, at) =
          first_serving_lem H N service s.maps s.machine_instance_map v.0 nz in
        (
          (delete_machine_lem H N service h s v.0 nz).1,
          rw found (
              destroy_machine-IsWired H N (record m { state = MachineState.unknown }) _
                (marked-IsWired m s at v.1)),
        )
  ]

  scale_machines_to-IsSound :
      StopsMachines H
      → (service : Text) (replicas : ℕ) (s : Store) → IsSound s
      → IsSound (scale_machines_to H N service replicas s).1
  scale_machines_to-IsSound h service =
      scale_machines_to-Keeps H N IsSound
        (λ s t e.
          subst (λ (x : Map Text Machine × Map Text Iface × Maps). IsKeyed x.0 × Wired x.0 x.1)
            (sym e))
        service (clone_machine-IsSound service) (delete_machine-IsSound h service)

  watch_health-IsSound :
      StopsMachines H
      → (visits : List (List Machine)) (s : Store) → IsSound s
      → IsSound (watch_health H N visits s).1
  watch_health-IsSound h visits s (u, w) = (
    (watch_health-NoMore H N (text "") h visits s u).1,
    watch_health-Keeps H N (IsWired H N) (same-IsWired H N)
        (λ m new t e off. destroy_machine-IsWired H N new) visits s w,
  )

  watchdog_answers-IsSound : (i : ℕ) (s : Store) → IsSound s → IsSound (watchdog_answers H N i s).1
  unfolding watchdog_answers
  watchdog_answers-IsSound i s v = ground arith

  perform-IsSound :
      StopsMachines H → (o : Operation) (s : Store) → IsSound s → IsSound (perform H N o s).1
  unfolding perform
  perform-IsSound h (create mreq) s v = create_machine-IsSound mreq s v
  perform-IsSound h (clone service) s v = clone_machine-IsSound service s v
  perform-IsSound h (delete service) s v = delete_machine-IsSound h service s v
  perform-IsSound h (scale service n) s v = scale_machines_to-IsSound h service n s v
  perform-IsSound h (check visits) s v = watch_health-IsSound h visits s v
  perform-IsSound h (poll i) s v = watchdog_answers-IsSound i s v

  -- If `Stop` returns nil or the machine that it was given, no longer running, then after any calls of
  -- the machine store, whatever each returns, every machine stands under its own id, no id stands
  -- twice, and each id of a machine has a network interface, if that was so before.
  pub run-IsSound :
      StopsMachines H → (calls : List Operation) (s : Store) → IsSound s → IsSound (run H N calls s)
  unfolding run
  run-IsSound h [] s v = v
  run-IsSound h (o ∷ os) s v = run-IsSound h os (perform H N o s).1 (perform-IsSound h o s v)
