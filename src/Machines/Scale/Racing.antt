-- ===== src/Machines/Scale/Racing.antt =====
-- Scaling down under every schedule of the goroutines.
use ukfaas.Prelude.{
  ℕ, zero, suc, ◌+◌, ◌-◌, ◌≤◌, ◌≡◌, refl, sym, subst, ap, ◌∙◌, inl, inr, Bool, false, Option, none,
  some, List, [], ◌∷◌, arith,
}
use ukfaas.Prelude.Lists.{
  set-All, replicate-All, All-weaken, choose, length, get_elem?, set, All, length-set,
  length-replicate, get_elem?-All, pair_eq,
}
use ukfaas.Prelude.Text.{Text, text_eq}
use ukfaas.Prelude.Map.{Map, load, store, remove, load-store, load-store_self, load-remove}
use ukfaas.Prelude.Exec.{Outcome, ok, err, panic, blocked}
use ukfaas.Network.Api.{NetworkController}
use ukfaas.Machines.Platform.{Machine, MachineState, Host, is_running}
use ukfaas.Machines.{Maps, MachineStore, serves, count_serving, get_replicas, get_function_machine}
use ukfaas.Machines.Counting.{
  IsKeyed, counted, count_serving-store, count_serving-remove, store-IsKeyed, remove-IsKeyed,
}
use ukfaas.Machines.Remove.{destroy_machine}
use ukfaas.Machines.Remove.Removing.{StopsMachines, Touched, machines, destroy_machine-Destroyed}
use ukfaas.Machines.Scale.Goroutines.{
  Goroutine, starting, picked, marked, waiting, ended, Scaling, after_search, after_destroy,
  is_panic, advance, advance_at, step, run, spawned,
}

-- Whether a goroutine may have taken a machine from the count, and how many may have.
spent_by : Goroutine → ℕ
spent_by starting = 0
spent_by (picked m) = 0
spent_by _ = 1

spent : List Goroutine → ℕ
spent [] = 0
spent (g ∷ gs) = spent_by g + spent gs

spent-set :
    (gs : List Goroutine) (i : ℕ) (g g' : Goroutine)
    → get_elem? gs i ≡ some g
    → spent (set gs i g') + spent_by g ≡ spent gs + spent_by g'
unfolding spent
spent-set [] i g g' e = cc
spent-set (x ∷ gs) zero g g' e = ground (arith, e)
spent-set (x ∷ gs) (suc i) g g' e = omega (arith, spent-set gs i g g' e)

spent_le : (gs : List Goroutine) → spent gs ≤ length gs
unfolding spent spent_by
spent_le [] = omega arith
spent_le (starting ∷ gs) = omega (arith, spent_le gs)
spent_le (picked m ∷ gs) = omega (arith, spent_le gs)
spent_le (marked m ∷ gs) = omega (arith, spent_le gs)
spent_le (waiting ∷ gs) = omega (arith, spent_le gs)
spent_le (ended ∷ gs) = omega (arith, spent_le gs)

module _ (H : Host) (N : NetworkController) (service : Text) where
  abbrev Store : Type 0
  Store = MachineStore H N

  -- The machine that a goroutine has marked does not count any more.
  Quiet : Map Text Machine × Maps → Goroutine → Type 0
  Quiet (ms, maps) (marked m) = counted service maps (load m.uid ms) ≡ 0
  Quiet p _ = Unit {0}

  -- The machines are keyed, their labels are the same, the count has lost at most `n`, and no machine
  -- that did not count does now.
  abbrev Fewer : ℕ → Map Text Machine × Maps → Map Text Machine × Maps → Type 0
  Fewer n (ms, maps) (ms', maps') =
      (maps' ≡ maps)
      × IsKeyed ms'
      × (count_serving H N service maps ms ≤ count_serving H N service maps' ms' + n)
      × ((k : Text) → counted service maps (load k ms) ≡ 0 → counted service maps' (load k ms') ≡ 0)

  counted_le : (maps : Maps) (o : Option Machine) → counted service maps o ≤ 1
  counted_le maps none = omega arith
  counted_le maps (some m) = ground arith

  off : (maps : Maps) (m : Machine) → is_running m.state ≡ false → counted service maps (some m) ≡ 0
  unfolding serves
  off maps m e = ground arith

  store-quiet :
      (maps : Maps) (m : Machine) (ms : Map Text Machine) (k u : Text)
      → is_running m.state ≡ false
      → counted service maps (load k ms) ≡ 0
      → counted service maps (load k (store u m ms)) ≡ 0
  store-quiet maps m ms k u e z = ground (arith, load-store k u m ms, off maps m e)

  remove-quiet :
      (maps : Maps) (ms : Map Text Machine) (k u : Text)
      → counted service maps (load k ms) ≡ 0
      → counted service maps (load k (remove u ms)) ≡ 0
  remove-quiet maps ms k u z = ground (arith, load-remove k u ms)

  marking-Fewer :
      (maps : Maps) (m : Machine) (ms : Map Text Machine)
      → is_running m.state ≡ false
      → IsKeyed ms
      → Fewer 1 (ms, maps) (store m.uid m ms, maps)
  marking-Fewer maps m ms e u = (
    refl,
    store-IsKeyed m ms u,
    omega (arith, count_serving-store H N service maps m.uid m ms, counted_le maps (load m.uid ms)),
    λ k. store-quiet maps m ms k m.uid e,
  )

  Touched-Fewer :
      (uid : Text) (ms : Map Text Machine) (maps : Maps) (p : Map Text Machine × Maps)
      → IsKeyed ms
      → counted service maps (load uid ms) ≡ 0
      → Touched uid (ms, maps) p
      → Fewer 0 (ms, maps) p
  Touched-Fewer uid ms maps (ms', maps') u z (kept, inl same) =
      subst (Fewer 0 (ms, maps)) (pair_eq (sym same) (sym kept)) (refl, u, omega arith, λ k q. q)
  Touched-Fewer uid ms maps (ms', maps') u z (kept, inr (inl (m, id, stopped, e))) =
      subst (Fewer 0 (ms, maps)) (pair_eq (sym e) (sym kept)) (
        refl,
        subst (λ k. IsKeyed (store k m ms)) id (store-IsKeyed m ms u),
        omega (arith, count_serving-store H N service maps uid m ms, z, off maps m stopped),
        λ k. store-quiet maps m ms k uid stopped,
      )
  Touched-Fewer uid ms maps (ms', maps') u z (kept, inr (inr e)) =
      subst (Fewer 0 (ms, maps)) (pair_eq (sym e) (sym kept)) (
        refl,
        remove-IsKeyed uid ms u,
        omega (arith, count_serving-remove H N service maps uid ms u, z),
        λ k. remove-quiet maps ms k uid,
      )

  abbrev entries : Store → Map Text Machine × Maps
  entries s = machines H N s

  same-Fewer : (s : Store) → IsKeyed s.machine_instance_map → Fewer 0 (entries s) (entries s)
  same-Fewer s u = (refl, u, omega arith, λ k z. z)

  -- What a step of one goroutine does to the count, and what it leaves for the invariant.
  abbrev Advanced : Goroutine → Store → Goroutine × Bool × Store → Type 0
  Advanced g s (g', crash, s') =
      (d : ℕ) × (d + spent_by g ≤ spent_by g')
      × Fewer d (entries s) (entries s')
      × Quiet (entries s') g'

  searched :
      (s : Store) (o : Outcome Machine)
      → IsKeyed s.machine_instance_map
      → Advanced starting s (after_search H N o, false, s)
  unfolding after_search spent_by Quiet
  searched s (ok m) u = (0, omega arith, same-Fewer s u, tt)
  searched s (err e) u = (0, omega arith, same-Fewer s u, tt)
  searched s panic u = (0, omega arith, same-Fewer s u, tt)
  searched s blocked u = (0, omega arith, same-Fewer s u, tt)

  destroyed :
      (m : Machine) (s s' : Store) (crash : Bool) (o : Outcome (Unit {0}))
      → Fewer 0 (entries s) (entries s')
      → Advanced (marked m) s (after_destroy H N o, crash, s')
  unfolding after_destroy spent_by Quiet
  destroyed m s s' crash (ok a) f = (0, omega arith, f, tt)
  destroyed m s s' crash (err e) f = (0, omega arith, f, tt)
  destroyed m s s' crash panic f = (0, omega arith, f, tt)
  destroyed m s s' crash blocked f = (0, omega arith, f, tt)

  advance-Advanced :
      StopsMachines H
      → (g : Goroutine) (s : Store) → IsKeyed s.machine_instance_map
      → Quiet (entries s) g
      → Advanced g s (advance H N service g s)
  unfolding advance Quiet spent_by is_running
  advance-Advanced h starting s u q = searched s (get_function_machine H N service s).0 u
  advance-Advanced h (picked m) s u q =
      let m' : Machine = record m { state = MachineState.unknown } in
      (
        1,
        omega arith,
        marking-Fewer s.maps m' s.machine_instance_map refl u,
        ap (counted service s.maps) (load-store_self m'.uid m' s.machine_instance_map)
            ∙ off s.maps m' refl,
      )
  advance-Advanced h (marked m) s u q =
      let out = destroy_machine H N m s in
      destroyed m s out.1 (is_panic H N out.0) out.0 (
        Touched-Fewer m.uid s.machine_instance_map s.maps (entries out.1) u q
          (destroy_machine-Destroyed H N h m s))
  advance-Advanced h waiting s u q = (0, omega arith, same-Fewer s u, tt)
  advance-Advanced h ended s u q = (0, omega arith, same-Fewer s u, tt)

  Quiet-Fewer :
      (n : ℕ) (p p' : Map Text Machine × Maps)
      → Fewer n p p'
      → (g : Goroutine) → Quiet p g
      → Quiet p' g
  unfolding Quiet
  Quiet-Fewer n p p' f starting q = tt
  Quiet-Fewer n p p' f (picked m) q = tt
  Quiet-Fewer n p p' f (marked m) q = f.3 m.uid q
  Quiet-Fewer n p p' f waiting q = tt
  Quiet-Fewer n p p' f ended q = tt

  -- The invariant of a run from a count of `total` with `n` goroutines.
  abbrev Inv : ℕ → ℕ → Maps → Scaling H N → Type 0
  Inv total n maps c =
      (c.machines.maps ≡ maps)
      × IsKeyed c.machines.machine_instance_map
      × (total ≤ get_replicas H N service c.machines + spent c.goroutines)
      × All (Quiet (entries c.machines)) c.goroutines
      × (length c.goroutines ≡ n)

  advance_at-Inv :
      StopsMachines H
      → (total n : ℕ) (maps : Maps) (i : ℕ) (c : Scaling H N) (o : Option Goroutine)
      → get_elem? c.goroutines i ≡ o
      → Inv total n maps c
      → Inv total n maps (advance_at H N service i o c)
  unfolding advance_at get_replicas
  advance_at-Inv h total n maps i c none e v = v
  advance_at-Inv h total n maps i c (some g) e v =
      let (same, u, bound, quiet, len) = v in
      let out = advance H N service g c.machines in
      let (d, le, f, q) =
        advance-Advanced h g c.machines u
          (get_elem?-All (Quiet (entries c.machines)) c.goroutines i quiet e) in
      (
        f.0 ∙ same,
        f.1,
        omega (arith, f.2, le, bound, spent-set c.goroutines i g out.0 e),
        set-All (Quiet (entries out.2)) c.goroutines i out.0
            (All-weaken (Quiet (entries c.machines)) (Quiet (entries out.2))
              (Quiet-Fewer d (entries c.machines) (entries out.2) f) c.goroutines quiet)
            q,
        length-set c.goroutines i out.0 ∙ len,
      )

  step-Inv :
      StopsMachines H
      → (total n : ℕ) (maps : Maps) (i : ℕ) (c : Scaling H N) → Inv total n maps c
      → Inv total n maps (step H N service i c)
  unfolding step
  step-Inv h total n maps i c v =
      choose (Inv total n maps) c.crashed v
        (advance_at-Inv h total n maps i c (get_elem? c.goroutines i) refl v)

  run-Inv :
      StopsMachines H
      → (total n : ℕ) (maps : Maps) (schedule : List ℕ) (c : Scaling H N) → Inv total n maps c
      → Inv total n maps (run H N service schedule c)
  unfolding run
  run-Inv h total n maps [] c v = v
  run-Inv h total n maps (i ∷ schedule) c v =
      run-Inv h total n maps schedule (step H N service i c) (step-Inv h total n maps i c v)

  spawned-Inv :
      (n : ℕ) (s : Store)
      → IsKeyed s.machine_instance_map
      → Inv (get_replicas H N service s) n s.maps (spawned H N n s)
  unfolding spawned Quiet
  spawned-Inv n s u = (
    refl,
    u,
    omega arith,
    replicate-All (Quiet (entries s)) n starting tt,
    length-replicate n starting,
  )

  -- If each of the goroutines that scale down takes its steps in any order with the others', up to any
  -- moment, the service keeps at least the replicas of the target, every machine stays under its own
  -- id, and the labels stay as they were.
  pub run-spawned :
      StopsMachines H
      → (target : ℕ) (schedule : List ℕ) (s : Store) → IsKeyed s.machine_instance_map
      → target ≤ get_replicas H N service s
      → let c = run H N service schedule (spawned H N (get_replicas H N service s - target) s) in
        (target ≤ get_replicas H N service c.machines)
        × IsKeyed c.machines.machine_instance_map
        × (c.machines.maps ≡ s.maps)
  run-spawned h target schedule s u le =
      let total = get_replicas H N service s in
      let c = run H N service schedule (spawned H N (total - target) s) in
      let (same, keyed, bound, quiet, len) =
        run-Inv h total (total - target) s.maps schedule (spawned H N (total - target) s)
          (spawned-Inv (total - target) s u) in
      (omega (arith, bound, len, spent_le c.goroutines, le), keyed, same)
