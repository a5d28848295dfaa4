-- ===== src/Machines/Scale/Checking.antt =====
-- What the machine store's health checks do to the replicas of any service, and to a machine that runs.
use ukfaas.Prelude.{◌≤◌, ◌≡◌, refl, sym, ap, ◌∙◌, subst, inl, inr, false, some, List, arith}
use ukfaas.Prelude.Lists.{pair_eq}
use ukfaas.Prelude.Text.{Text, text_eq}
use ukfaas.Prelude.Map.{Map, store}
use ukfaas.Network.Api.{NetworkController}
use ukfaas.Machines.Platform.{Machine, Iface, Host, is_running}
use ukfaas.Machines.{Maps, MachineStore, serves, count_serving}
use ukfaas.Machines.Counting.{
  IsKeyed, counted, count_serving-store, count_serving-remove, store-IsKeyed, remove-IsKeyed,
}
use ukfaas.Machines.Remove.{destroy_machine}
use ukfaas.Machines.Remove.Removing.{StopsMachines, Touched, machines, destroy_machine-Destroyed}
use ukfaas.Machines.Scale.Keeping.{watch_health-Keeps}
use ukfaas.Machines.Scale.{watch_health}

module _ (H : Host) (N : NetworkController) (service : Text) where
  abbrev Store : Type 0
  Store = MachineStore H N

  -- The labels are the same, the machines are keyed, and the service has no more replicas.
  abbrev pub NoMore : Map Text Machine × Maps → Map Text Machine × Maps → Type 0
  NoMore (ms, maps) (ms', maps') =
      (maps' ≡ maps)
      × IsKeyed ms'
      × (count_serving H N service maps' ms' ≤ count_serving H N service maps ms)

  off : (maps : Maps) (m : Machine) → is_running m.state ≡ false → counted service maps (some m) ≡ 0
  unfolding serves
  off maps m e = ground arith

  Touched-NoMore :
      (uid : Text) (ms : Map Text Machine) (maps : Maps) (p : Map Text Machine × Maps)
      → IsKeyed ms
      → Touched uid (ms, maps) p
      → NoMore (ms, maps) p
  Touched-NoMore uid ms maps (ms', maps') u (kept, inl same) =
      subst (NoMore (ms, maps)) (pair_eq (sym same) (sym kept)) (refl, u, omega arith)
  Touched-NoMore uid ms maps (ms', maps') u (kept, inr (inl (m, id, stopped, e))) =
      subst (NoMore (ms, maps)) (pair_eq (sym e) (sym kept)) (
        refl,
        subst (λ k. IsKeyed (store k m ms)) id (store-IsKeyed m ms u),
        omega (arith, count_serving-store H N service maps uid m ms, off maps m stopped),
      )
  Touched-NoMore uid ms maps (ms', maps') u (kept, inr (inr e)) =
      subst (NoMore (ms, maps)) (pair_eq (sym e) (sym kept)) (
        refl,
        remove-IsKeyed uid ms u,
        omega (arith, count_serving-remove H N service maps uid ms u),
      )

  NoMore-trans : (p q r : Map Text Machine × Maps) → NoMore p q → NoMore q r → NoMore p r
  NoMore-trans p q r f g = (g.0 ∙ f.0, g.1, omega (arith, f.2, g.2))

  -- However many rounds `RunHealthChecks` does until it is cancelled and whichever machines each
  -- visits, no service has more replicas after it, every machine stays under its own id, and the labels
  -- stay as they were.
  pub watch_health-NoMore :
      StopsMachines H
      → (visits : List (List Machine)) (s : Store) → IsKeyed s.machine_instance_map
      → NoMore (machines H N s) (machines H N (watch_health H N visits s).1)
  watch_health-NoMore h visits s u =
      watch_health-Keeps H N (λ t. NoMore (machines H N s) (machines H N t))
        (λ t t' e f.
          subst (NoMore (machines H N s))
            (sym (ap (λ (x : Map Text Machine × Map Text Iface × Maps). (x.0, x.2)) e)) f)
        (λ m new w e off t f.
          let out = (destroy_machine H N new t).1 in
          NoMore-trans (machines H N s) (machines H N t) (machines H N out) f (
            Touched-NoMore new.uid t.machine_instance_map t.maps (machines H N out) f.1
              (destroy_machine-Destroyed H N h new t)))
        visits s (refl, u, omega arith)
