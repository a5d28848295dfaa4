-- ===== src/Machines/Scale/Keeping.antt =====
-- What every goroutine of `ScaleMachinesTo` keeps, whatever it returns, is kept by all of them, and
-- what `destroyMachine` keeps is kept by the health checks.
use ukfaas.Prelude.{inl, inr, true, false, ℕ, zero, suc, ◌-◌, ◌≡◌, refl, List, [], ◌∷◌}
use ukfaas.Prelude.Lists.{Bool-cases, choose, ltb}
use ukfaas.Prelude.Text.{Text}
use ukfaas.Prelude.Exec.{Outcome, ok, err, panic, blocked, Exec, pure, after as after_outcome}
use ukfaas.Network.Api.{NetworkController}
use ukfaas.Machines.Platform.{Machine, Host, is_running}
use ukfaas.Machines.{MachineStore, get_replicas, outer, ask}
use ukfaas.Machines.Launch.{clone_machine}
use ukfaas.Machines.Remove.{destroy_machine, delete_machine}
use ukfaas.Machines.Remove.Frames.{entries}
use ukfaas.Prelude.Frame.{Frame, frame_rules}
use ukfaas.Machines.Scale.{
  then_others, still_waiting, spawn, scale_locked, scale_machines_to, released, exclusively, look,
  checked, got, check_machine, run_health_checks, health_controller, rounds, watch_health,
}

module _ (H : Host) (N : NetworkController) where
  Frame-ask {ℓ} : {A : Type ℓ} (m : H.World → A × H.World) → Frame (entries H N) (ask H N m)
  Frame-ask m = record { at = λ s. refl }

  Frame-outer : (m : Exec H.World (Unit {0})) → Frame (entries H N) (outer H N m)
  Frame-outer m = record { at = λ s. refl }

  health_controller-Frame : Frame (entries H N) (health_controller H N)
  unfolding health_controller
  health_controller-Frame = search (frame_rules, Frame-ask, Frame-outer) depth 12

module _ (H : Host) (N : NetworkController) (P : MachineStore H N → Type 0) where
  abbrev Store : Type 0
  Store = MachineStore H N

  still_waiting-Keeps : (p : Outcome (Unit {0}) × Store) → P p.1 → P (still_waiting H N p).1
  unfolding still_waiting
  still_waiting-Keeps (panic, s) u = u
  still_waiting-Keeps (ok _, s) u = u
  still_waiting-Keeps (err x, s) u = u
  still_waiting-Keeps (blocked, s) u = u

  then_others-Keeps :
      (o : Outcome (Unit {0})) (rest : Exec Store (Unit {0})) (s : Store)
      → P s
      → P (rest s).1
      → P (then_others H N o rest s).1
  unfolding then_others
  then_others-Keeps (ok _) rest s u v = v
  then_others-Keeps (err x) rest s u v = v
  then_others-Keeps panic rest s u v = u
  then_others-Keeps blocked rest s u v = still_waiting-Keeps (rest s) v

  abbrev pub Keeps : Exec Store (Unit {0}) → Type 0
  Keeps m = (s : Store) → P s → P (m s).1

  spawn-Keeps : (m : Exec Store (Unit {0})) (n : ℕ) → Keeps m → Keeps (spawn H N n m)
  unfolding spawn
  spawn-Keeps m zero h s u = u
  spawn-Keeps m (suc n) h s u =
      then_others-Keeps (m s).0 (spawn H N n m) (m s).1 (h s u) (spawn-Keeps m n h (m s).1 (h s u))

  module _ (framed : (s t : Store) → entries H N t ≡ entries H N s → P s → P t) where
    released-Keeps : (p : Outcome (Unit {0}) × Store) → P p.1 → P (released H N p).1
    unfolding released
    released-Keeps (ok _, s) u = framed s (record s { health_check_lock = false }) refl u
    released-Keeps (err e, s) u = framed s (record s { health_check_lock = false }) refl u
    released-Keeps (panic, s) u = framed s (record s { health_check_lock = false }) refl u
    released-Keeps (blocked, s) u = u

    exclusively-Keeps : (m : Exec Store (Unit {0})) → Keeps m → Keeps (exclusively H N m)
    unfolding exclusively
    exclusively-Keeps m h s u =
        let taken : Store = record s { health_check_lock = true } in
        choose {A = Outcome (Unit {0}) × Store} (λ p. P p.1) s.health_check_lock u
          (released-Keeps (m taken) (h taken (framed s taken refl u)))

    scale_locked-Keeps :
        (service : Text)
        → Keeps (clone_machine H N service)
        → Keeps (delete_machine H N service)
        → (replicas : ℕ) → Keeps (scale_locked H N service replicas)
    unfolding scale_locked
    scale_locked-Keeps service cloned deleted replicas s u =
        let curr = get_replicas H N service s in
        choose {A = Outcome (Unit {0}) × Store} (λ p. P p.1) (ltb curr replicas)
          (spawn-Keeps (clone_machine H N service) (replicas - curr) cloned s u)
          (choose {A = Outcome (Unit {0}) × Store} (λ p. P p.1) (ltb replicas curr)
            (spawn-Keeps (delete_machine H N service) (curr - replicas) deleted s u) u)

    pub scale_machines_to-Keeps :
        (service : Text)
        → Keeps (clone_machine H N service)
        → Keeps (delete_machine H N service)
        → (replicas : ℕ) → Keeps (scale_machines_to H N service replicas)
    unfolding scale_machines_to
    scale_machines_to-Keeps service cloned deleted replicas =
        exclusively-Keeps (scale_locked H N service replicas)
          (scale_locked-Keeps service cloned deleted replicas)

  module _ (framed : (s t : Store) → entries H N t ≡ entries H N s → P s → P t)
      (destroyed : (m new : Machine) (w : H.World)
        → (H.get m w).0 ≡ ok new
        → is_running new.state ≡ false
        → Keeps (destroy_machine H N new)) where
    checked-Keeps :
        (new : Machine)
        → (is_running new.state ≡ false → Keeps (destroy_machine H N new))
        → Keeps (checked H N new)
    unfolding checked
    checked-Keeps new h s u = elim (Bool-cases (is_running new.state)) [
      | inl e ↦ rw e u
      | inr e ↦
          let d = destroy_machine H N new s in
          rw e (then_others-Keeps d.0 (pure tt) d.1 (h e s u) (h e s u))
    ]

    got-Keeps :
        (r : Outcome Machine)
        → ((new : Machine)
            → r ≡ ok new
            → is_running new.state ≡ false
            → Keeps (destroy_machine H N new))
        → Keeps (got H N r)
    unfolding got
    got-Keeps (ok new) h s u = checked-Keeps new (h new refl) s u
    got-Keeps (err e) h s u = u
    got-Keeps panic h s u = u
    got-Keeps blocked h s u = u

    look-Keeps : (m : Machine) → Keeps (look H N m)
    unfolding look
    look-Keeps m s u =
        let asked : Store = record s { world = (H.get m s.world).1 } in
        choose {A = Outcome (Unit {0}) × Store} (λ p. P p.1) (is_running m.state)
          (got-Keeps (H.get m s.world).0 (λ new. destroyed m new s.world) asked
            (framed s asked refl u))
          u

    check_machine-Keeps : (m : Machine) → Keeps (check_machine H N m)
    unfolding check_machine
    check_machine-Keeps m = exclusively-Keeps framed (look H N m) (look-Keeps m)

    then-Keeps :
        (o : Outcome (Unit {0})) (rest : Exec Store (Unit {0})) (t : Store)
        → P t
        → Keeps rest
        → P (after_outcome o (λ _. rest) t).1
    then-Keeps (ok _) rest t u h = h t u
    then-Keeps (err e) rest t u h = u
    then-Keeps panic rest t u h = u
    then-Keeps blocked rest t u h = u

    run_health_checks-Keeps : (visited : List Machine) → Keeps (run_health_checks H N visited)
    unfolding run_health_checks
    run_health_checks-Keeps [] s u = u
    run_health_checks-Keeps (m ∷ ms) s u =
        let c = check_machine H N m s in
        then-Keeps c.0 (run_health_checks H N ms) c.1 (check_machine-Keeps m s u)
          (run_health_checks-Keeps ms)

    rounds-Keeps : (visits : List (List Machine)) → Keeps (rounds H N visits)
    unfolding rounds
    rounds-Keeps [] s u = u
    rounds-Keeps (visited ∷ rest) s u =
        let c = run_health_checks H N visited s in
        then-Keeps c.0 (rounds H N rest) c.1 (run_health_checks-Keeps visited s u)
          (rounds-Keeps rest)

    pub watch_health-Keeps : (visits : List (List Machine)) → Keeps (watch_health H N visits)
    unfolding watch_health
    watch_health-Keeps visits s u =
        let c = health_controller H N s in
        then-Keeps c.0 (rounds H N visits) c.1 (framed s c.1 ((health_controller-Frame H N).at s) u)
          (rounds-Keeps visits)
