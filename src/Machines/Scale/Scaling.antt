-- ===== src/Machines/Scale/Scaling.antt =====
-- What `ScaleMachinesTo` and `StopAllMachines` do to the machines of a service.
use ukfaas.Prelude.{
  ℕ_discrete, ◌≢◌, ℕ, zero, suc, ◌+◌, ◌-◌, ◌≤◌, ◌≡◌, ◌≢◌, refl, sym, subst, ap, false, ◌∙◌, inl,
  inr, ◌⊎◌, true, ◌++◌, arith,
}
use ukfaas.Prelude.Lists.{Bool-cases, if◌then◌else◌, choose, ltb}
use ukfaas.Prelude.Text.{Text, text}
use ukfaas.Prelude.Exec.{Outcome, ok, err, panic, blocked, Exec, after as after_outcome}
use ukfaas.Network.Api.{NetworkController}
use ukfaas.Machines.Platform.{Machine, Host}
use ukfaas.Machines.{
  Maps, MachineStore, get_replicas, get_function_machine, first_serving, required,
}
use ukfaas.Machines.Counting.{IsKeyed, first_serving-none}
use ukfaas.Machines.Create.{create_machine}
use ukfaas.Machines.Launch.{clone_machine, clone_request}
use ukfaas.Machines.Create.Frames.{locked_entries}
use ukfaas.Machines.Create.Locking.{create_machine_locked}
use ukfaas.Machines.Remove.Removing.{StopsMachines}
use ukfaas.Machines.Remove.Replicas.{delete_machine_lem}
use ukfaas.Machines.Remove.{delete_machine}
use ukfaas.Machines.Scale.{
  still_waiting, then_others, spawn, released, exclusively, scale_locked, scale_machines_to,
  stop_all_machines,
}

module _ (H : Host) (N : NetworkController) where
  abbrev Store : Type 0
  Store = MachineStore H N

  -- An invariant of the calls that `spawn` makes, counted down, if none of them panics.
  module _ (Q : ℕ → Store → Type 0) where
    abbrev Unless : Outcome (Unit {0}) × Store → Type 0
    Unless (o, s) = (o ≡ panic) ⊎ Q 0 s

    still_waiting-Unless :
        (p : Outcome (Unit {0}) × Store) → Unless p → Unless (still_waiting H N p)
    unfolding still_waiting
    still_waiting-Unless (panic, s) u = inl refl
    still_waiting-Unless (ok _, s) (inl e) = absurd cc
    still_waiting-Unless (ok _, s) (inr q) = inr q
    still_waiting-Unless (err x, s) (inl e) = absurd cc
    still_waiting-Unless (err x, s) (inr q) = inr q
    still_waiting-Unless (blocked, s) (inl e) = absurd cc
    still_waiting-Unless (blocked, s) (inr q) = inr q

    then_others-Unless :
        (o : Outcome (Unit {0})) (rest : Exec Store (Unit {0})) (s : Store)
        → Unless (rest s)
        → Unless (then_others H N o rest s)
    unfolding then_others
    then_others-Unless (ok _) rest s u = u
    then_others-Unless (err x) rest s u = u
    then_others-Unless panic rest s u = inl refl
    then_others-Unless blocked rest s u = still_waiting-Unless (rest s) u

    spawn-Unless :
        (m : Exec Store (Unit {0}))
        → ((n : ℕ) (s : Store) → Q (suc n) s → Q n (m s).1)
        → (n : ℕ) (s : Store) → Q n s
        → Unless (spawn H N n m s)
    unfolding spawn
    spawn-Unless m step zero s q = inr q
    spawn-Unless m step (suc n) s q =
        then_others-Unless (m s).0 (spawn H N n m) (m s).1
          (spawn-Unless m step n (m s).1 (step n s q))

  abbrev pub NoError : Outcome (Unit {0}) → Type 0
  NoError o = (e : Text) → o ≢ err e

  done-NoError : NoError (ok tt)
  done-NoError e = cc

  still_waiting-NoError :
      (p : Outcome (Unit {0}) × Store) → NoError p.0 → NoError (still_waiting H N p).0
  unfolding still_waiting
  still_waiting-NoError (panic, s) h e = cc
  still_waiting-NoError (ok _, s) h e = cc
  still_waiting-NoError (err x, s) h e = cc
  still_waiting-NoError (blocked, s) h e = cc

  spawn-NoError : (n : ℕ) (m : Exec Store (Unit {0})) (s : Store) → NoError (spawn H N n m s).0
  unfolding spawn then_others
  spawn-NoError zero m s e = cc
  spawn-NoError (suc n) m s e =
      then_others-NoError (m s).0 (spawn H N n m) (m s).1 (spawn-NoError n m) e
    where
      then_others-NoError :
          (o : Outcome (Unit {0})) (rest : Exec Store (Unit {0})) (s : Store)
          → ((t : Store) → NoError (rest t).0)
          → NoError (then_others H N o rest s).0
      then_others-NoError (ok _) rest s h e = h s e
      then_others-NoError (err x) rest s h e = h s e
      then_others-NoError panic rest s h e = cc
      then_others-NoError blocked rest s h e = still_waiting-NoError (rest s) (h s) e

  -- The service has `n` replicas more than `target`, and the entries are keyed.
  abbrev IsAbove : Text → ℕ → Maps → ℕ → Store → Type 0
  IsAbove service target maps n s =
      (get_replicas H N service s ≡ n + target) × IsKeyed s.machine_instance_map × (s.maps ≡ maps)

  delete_machine-IsAbove :
      StopsMachines H
      → (service : Text) (target : ℕ) (maps : Maps) (n : ℕ) (s : Store)
      → IsAbove service target maps (suc n) s
      → IsAbove service target maps n (delete_machine H N service s).1
  delete_machine-IsAbove h service target maps n s (more, u, same) =
      let (less, keyed, kept) = delete_machine_lem H N service h s u (ground (arith, more)) in
      (ground (arith, less, more), keyed, kept ∙ same)

  scale_down_spawns :
      (service : Text) (target : ℕ) (s : Store)
      → target ≤ get_replicas H N service s
      → scale_locked H N service target s
        ≡ spawn H N (get_replicas H N service s - target) (delete_machine H N service) s
  unfolding scale_locked spawn
  scale_down_spawns service target s le = ground arith

  -- The target is reached, the entries are keyed, and the labels are as they were.
  abbrev pub IsAt : Text → ℕ → Maps → Store → Type 0
  IsAt service target maps s =
      (get_replicas H N service s ≡ target) × IsKeyed s.machine_instance_map × (s.maps ≡ maps)

  abbrev Ended : Text → ℕ → Maps → Outcome (Unit {0}) × Store → Type 0
  Ended service target maps p = (p.0 ≡ panic) ⊎ IsAt service target maps p.1

  reached :
      (service : Text) (target : ℕ) (maps : Maps) (p : Outcome (Unit {0}) × Store)
      → Unless (IsAbove service target maps) p
      → Ended service target maps p
  reached service target maps p (inl e) = inl e
  reached service target maps p (inr (at, u, same)) = inr (ground (arith, at), u, same)

  released-Ended :
      (service : Text) (target : ℕ) (maps : Maps) (p : Outcome (Unit {0}) × Store)
      → Ended service target maps p
      → Ended service target maps (released H N p)
  unfolding released get_replicas
  released-Ended service target maps (ok _, s) (inl e) = absurd cc
  released-Ended service target maps (ok _, s) (inr at) = inr at
  released-Ended service target maps (err e, s) (inl q) = absurd cc
  released-Ended service target maps (err e, s) (inr at) = inr at
  released-Ended service target maps (panic, s) at = inl refl
  released-Ended service target maps (blocked, s) (inl e) = absurd cc
  released-Ended service target maps (blocked, s) (inr at) = inr at

  scale_locked_down :
      StopsMachines H
      → (service : Text) (target : ℕ) (s : Store) → IsKeyed s.machine_instance_map
      → target ≤ get_replicas H N service s
      → Ended service target s.maps (scale_locked H N service target s)
  scale_locked_down h service target s u le =
      let done =
        spawn-Unless (IsAbove service target s.maps) (delete_machine H N service)
          (delete_machine-IsAbove h service target s.maps) (get_replicas H N service s - target) s
          (ground arith, u, refl) in
      subst (Ended service target s.maps) (sym (scale_down_spawns service target s le))
        (reached service target s.maps _ done)

  -- The call waits for ever at the lock of the health checks, and nothing changes.
  abbrev pub Waits : Store → Outcome (Unit {0}) × Store → Type 0
  Waits s p = (s.health_check_lock ≡ true) × (p ≡ (blocked, s))

  -- If `Stop` returns nil or the machine that it was given, no longer running, and the machines stand
  -- under their own ids, scaling down to a target that is below or at the replicas of a service waits
  -- for ever at the lock of the health checks, if that is held, and changes nothing; and otherwise it
  -- panics or reaches the target, whatever other calls fail, if its goroutines run one after another.
  pub scale_machines_to_down :
      StopsMachines H
      → (service : Text) (target : ℕ) (s : Store) → IsKeyed s.machine_instance_map
      → target ≤ get_replicas H N service s
      → Waits s (scale_machines_to H N service target s)
        ⊎ ((s.health_check_lock ≡ false)
            × (((scale_machines_to H N service target s).0 ≡ panic)
                ⊎ IsAt service target s.maps (scale_machines_to H N service target s).1))
  unfolding scale_machines_to exclusively get_replicas
  scale_machines_to_down h service target s u le = elim (Bool-cases s.health_check_lock) [
    | inl e ↦ inl (e, rw e refl)
    | inr e ↦
        let taken : Store = record s { health_check_lock = true } in
        inr (
          e,
          rw e (
              released-Ended service target s.maps (scale_locked H N service target taken)
                (scale_locked_down h service target taken u le)),
        )
  ]

  -- If its goroutines run one after another, `StopAllMachines` leaves no replica of the service, unless
  -- it panics, or waits for ever at the lock of the health checks.
  pub stop_all_machines_lem :
      StopsMachines H
      → (service : Text) (s : Store) → IsKeyed s.machine_instance_map
      → Waits s (stop_all_machines H N service s)
        ⊎ ((s.health_check_lock ≡ false)
            × (((stop_all_machines H N service s).0 ≡ panic)
                ⊎ IsAt service 0 s.maps (stop_all_machines H N service s).1))
  unfolding stop_all_machines
  stop_all_machines_lem h service s u = scale_machines_to_down h service 0 s u (omega arith)

  no_machine :
      (service : Text) (s : Store)
      → get_replicas H N service s ≡ 0
      → clone_machine H N service s ≡ (err (text "function " ++ (service ++ text " not found")), s)
  unfolding clone_machine get_function_machine get_replicas required
  no_machine service s e = rw (first_serving-none H N service s.maps s.machine_instance_map e) refl

  spawn_nothing :
      (m : Exec Store (Unit {0})) (e : Text) (n : ℕ) (s : Store)
      → m s ≡ (err e, s)
      → spawn H N n m s ≡ (ok tt, s)
  unfolding spawn then_others
  spawn_nothing m e zero s q = refl
  spawn_nothing m e (suc n) s q = rw q (spawn_nothing m e n s q)

  released-NoError : (p : Outcome (Unit {0}) × Store) → NoError p.0 → NoError (released H N p).0
  unfolding released
  released-NoError (ok _, s) h e = cc
  released-NoError (err x, s) h e = absurd (h x refl)
  released-NoError (panic, s) h e = cc
  released-NoError (blocked, s) h e = cc

  scale_locked-NoError :
      (service : Text) (target : ℕ) (s : Store) → NoError (scale_locked H N service target s).0
  unfolding scale_locked
  scale_locked-NoError service target s =
      let curr = get_replicas H N service s in
      choose {A = Outcome (Unit {0}) × Store} (λ p. NoError p.0) (ltb curr target)
        (spawn-NoError (target - curr) _ s)
        (choose {A = Outcome (Unit {0}) × Store} (λ p. NoError p.0) (ltb target curr)
          (spawn-NoError (curr - target) _ s) done-NoError)

  scale_machines_to-NoError :
      (service : Text) (target : ℕ) (s : Store) → NoError (scale_machines_to H N service target s).0
  unfolding scale_machines_to exclusively
  scale_machines_to-NoError service target s =
      let taken : Store = record s { health_check_lock = true } in
      choose {A = Outcome (Unit {0}) × Store} (λ p. NoError p.0) s.health_check_lock (λ e. cc)
        (released-NoError (scale_locked H N service target taken)
          (scale_locked-NoError service target taken))

  scale_locked_nothing :
      (service : Text) (target : ℕ) (s : Store)
      → get_replicas H N service s ≡ 0
      → scale_locked H N service target s ≡ (ok tt, s)
  unfolding scale_locked
  scale_locked_nothing service target s z = ground (
    arith,
    z,
    spawn_nothing (clone_machine H N service) (text "function " ++ (service ++ text " not found"))
        (target - get_replicas H N service s) s (no_machine service s z),
  )

  scale_machines_to_nothing :
      (service : Text) (target : ℕ) (s : Store)
      → get_replicas H N service s ≡ 0
      → scale_machines_to H N service target s
        ≡ ((if s.health_check_lock then blocked else ok tt), s)
  unfolding scale_machines_to exclusively released get_replicas
  scale_machines_to_nothing service target s z = elim (Bool-cases s.health_check_lock) [
    | inl e ↦ rw e refl
    | inr e ↦
        let taken : Store = record s { health_check_lock = true } in
        rw e (ap (released H N) (scale_locked_nothing service target taken z))
  ]

  -- `ScaleMachinesTo` never returns an error, since each goroutine only logs its own. Without a
  -- replica to clone it changes nothing, and returns nil, or waits for ever if the lock of the health
  -- checks is held.
  pub scale_machines_to_lem :
      (service : Text) (target : ℕ) (s : Store)
      → NoError (scale_machines_to H N service target s).0
        × ((get_replicas H N service s ≢ 0)
            ⊎ (scale_machines_to H N service target s
                ≡ ((if s.health_check_lock then blocked else ok tt), s)))
  scale_machines_to_lem service target s = (
    scale_machines_to-NoError service target s,
    elim (ℕ_discrete (get_replicas H N service s) 0) [
      | yes z ↦ inr (scale_machines_to_nothing service target s z)
      | no nz ↦ inl nz
    ],
  )

  -- Scaling up, with a replica or not.
  scale_up_spawns :
      (service : Text) (target : ℕ) (s : Store)
      → get_replicas H N service s ≤ target
      → scale_locked H N service target s
        ≡ spawn H N (target - get_replicas H N service s) (clone_machine H N service) s
  unfolding scale_locked spawn
  scale_up_spawns service target s le = ground arith

  clone_locked :
      (service : Text) (s t : Store)
      → t.lock ≡ true
      → locked_entries H N (clone_machine H N service t).1 ≡ locked_entries H N t
  unfolding clone_machine get_function_machine
  clone_locked service s t taken =
      picked (required H N service (first_serving H N service t.maps t.machine_instance_map))
    where
      picked :
          (o : Outcome Machine)
          → locked_entries H N
              (after_outcome o
                (λ m (t' : Store). create_machine H N (clone_request t'.maps m) t')
                t).1
            ≡ locked_entries H N t
      picked (ok m) = (create_machine_locked H N (clone_request t.maps m) t taken).1
      picked (err e) = refl
      picked panic = refl
      picked blocked = refl

  abbrev Unchanged : Store → Outcome (Unit {0}) × Store → Type 0
  Unchanged s p = (p.0 ≡ panic) ⊎ (locked_entries H N p.1 ≡ locked_entries H N s)

  released-Unchanged :
      (s : Store) (p : Outcome (Unit {0}) × Store) → Unchanged s p → Unchanged s (released H N p)
  unfolding released
  released-Unchanged s (ok _, t) (inl e) = absurd cc
  released-Unchanged s (ok _, t) (inr e) = inr e
  released-Unchanged s (err x, t) (inl e) = absurd cc
  released-Unchanged s (err x, t) (inr e) = inr e
  released-Unchanged s (panic, t) u = inl refl
  released-Unchanged s (blocked, t) u = u

  scale_locked-Unchanged :
      (service : Text) (target : ℕ) (s : Store)
      → s.lock ≡ true
      → get_replicas H N service s ≤ target
      → Unchanged s (scale_locked H N service target s)
  scale_locked-Unchanged service target s taken le =
      subst (Unchanged s) (sym (scale_up_spawns service target s le)) (
        spawn-Unless (λ n t. locked_entries H N t ≡ locked_entries H N s)
          (clone_machine H N service)
          (λ n t same. clone_locked service s t (ground (arith, taken, same)) ∙ same)
          (target - get_replicas H N service s) s refl)

  -- While the lock of the store is held, scaling up enters no machine, and the lock stays held, unless
  -- it panics; the goroutines run one after another.
  pub scale_machines_to_locked :
      (service : Text) (target : ℕ) (s : Store)
      → s.lock ≡ true
      → get_replicas H N service s ≤ target
      → ((scale_machines_to H N service target s).0 ≡ panic)
        ⊎ (locked_entries H N (scale_machines_to H N service target s).1 ≡ locked_entries H N s)
  unfolding scale_machines_to exclusively get_replicas
  scale_machines_to_locked service target s taken le =
      let inside : Store = record s { health_check_lock = true } in
      choose {A = Outcome (Unit {0}) × Store} (Unchanged s) s.health_check_lock (inr refl) (
        released-Unchanged s (scale_locked H N service target inside)
          (scale_locked-Unchanged service target inside taken le))
