-- ===== src/Machines/Remove/Replicas.antt =====
-- What `DeleteMachine` does to the count of `GetReplicas`.
use ukfaas.Prelude.{ℕ, ◌+◌, ◌≡◌, ◌≢◌, refl, sym, subst, ap, ◌∙◌, inl, inr, true, false, some, arith}
use ukfaas.Prelude.Lists.{pair_eq}
use ukfaas.Prelude.Text.{Text, text_eq}
use ukfaas.Prelude.Map.{Map, load, store, load-store_self}
use ukfaas.Prelude.Exec.{Outcome, after as after_outcome, ◌>>◌, modify}
use ukfaas.Network.Api.{NetworkController}
use ukfaas.Machines.Platform.{Machine, MachineState, Host, is_running}
use ukfaas.Machines.{
  Maps, MachineStore, serves, get_replicas, get_function_machine, count_serving, required,
}
use ukfaas.Machines.Counting.{
  IsKeyed, counted, count_serving-store, count_serving-remove, first_serving_lem, store-IsKeyed,
  remove-IsKeyed,
}
use ukfaas.Machines.Remove.Removing.{StopsMachines, Touched, machines, destroy_machine-Destroyed}
use ukfaas.Machines.Remove.{destroy_machine, delete_machine}

plus_zero : (n : ℕ) → n ≡ n + 0
plus_zero n = omega arith

one_less : (a b c d : ℕ) → a + c ≡ b + d → c ≡ 1 → d ≡ 0 → a + 1 ≡ b
one_less a b c d e f g = omega arith

count_kept : (a b c d n : ℕ) → a + c ≡ b + d → c ≡ 0 → d ≡ 0 → b + 1 ≡ n → a + 1 ≡ n
count_kept a b c d n e f g h = omega arith

module _ (H : Host) (N : NetworkController) (service : Text) where
  abbrev Store : Type 0
  Store = MachineStore H N

  -- The entries are keyed, the labels are `maps`, and the service has one replica less than `n`.
  abbrev pub OneLess : ℕ → Maps → Map Text Machine × Maps → Type 0
  OneLess n maps (ms, maps') =
      (maps' ≡ maps) × IsKeyed ms × (count_serving H N service maps' ms + 1 ≡ n)

  stopped-counted :
      (maps : Maps) (m : Machine) → is_running m.state ≡ false → counted service maps (some m) ≡ 0
  unfolding serves
  stopped-counted maps m e = ground arith

  running-counted :
      (maps : Maps) (m : Machine) → serves service maps m ≡ true → counted service maps (some m) ≡ 1
  running-counted maps m e = ground arith

  Touched-OneLess :
      (marked : Machine) (n : ℕ) (ms : Map Text Machine) (maps : Maps) (p : Map Text Machine × Maps)
      → is_running marked.state ≡ false
      → load marked.uid ms ≡ some marked
      → IsKeyed ms
      → count_serving H N service maps ms + 1 ≡ n
      → Touched marked.uid (ms, maps) p
      → OneLess n maps p
  Touched-OneLess marked n ms maps (ms', maps') off at u less (kept, inl same) =
      subst (OneLess n maps) (pair_eq (sym same) (sym kept)) (refl, u, less)
  Touched-OneLess marked n ms maps (ms', maps') off at u less
        (kept, inr (inl (m, id, stopped, e))) =
      subst (OneLess n maps) (pair_eq (sym e) (sym kept)) (
        refl,
        subst (λ k. IsKeyed (store k m ms)) id (store-IsKeyed m ms u),
        count_kept _ _ _ _ n (count_serving-store H N service maps marked.uid m ms)
            (ap (counted service maps) at ∙ stopped-counted maps marked off)
            (stopped-counted maps m stopped) less,
      )
  Touched-OneLess marked n ms maps (ms', maps') off at u less (kept, inr (inr e)) =
      subst (OneLess n maps) (pair_eq (sym e) (sym kept)) (
        refl,
        remove-IsKeyed marked.uid ms u,
        count_kept _ _ _ _ n (count_serving-remove H N service maps marked.uid ms u ∙ plus_zero _)
            (ap (counted service maps) at ∙ stopped-counted maps marked off) refl less,
      )

  -- Once the machine `m` is marked, whatever becomes of it.
  marked-OneLess :
      (m : Machine) (s : Store)
      → IsKeyed s.machine_instance_map
      → load m.uid s.machine_instance_map ≡ some m
      → serves service s.maps m ≡ true
      → (p : Map Text Machine × Maps)
      → Touched m.uid
          (store m.uid (record m { state = MachineState.unknown }) s.machine_instance_map, s.maps)
          p
      → OneLess (get_replicas H N service s) s.maps p
  unfolding get_replicas is_running
  marked-OneLess m s u at fits p touched =
      let marked : Machine = record m { state = MachineState.unknown } in
      Touched-OneLess marked (count_serving H N service s.maps s.machine_instance_map)
        (store m.uid marked s.machine_instance_map) s.maps p refl
        (load-store_self m.uid marked s.machine_instance_map)
        (store-IsKeyed marked s.machine_instance_map u)
        (one_less _ _ _ _
          (count_serving-store H N service s.maps m.uid marked s.machine_instance_map)
          (ap (counted service s.maps) at ∙ running-counted s.maps m fits)
          (stopped-counted s.maps marked refl))
        touched

  -- The rest of `DeleteMachine` once a machine was picked.
  abbrev rest : Outcome Machine → Store → Store
  rest o s =
      (after_outcome o
        (λ m.
          let marked : Machine = record m { state = MachineState.unknown } in
          (modify λ (s : Store). record s {
            machine_instance_map = store marked.uid marked s.machine_instance_map;
          })
          >> destroy_machine H N marked)
        s).1

  -- One replica less, the entries keyed and the labels as they were.
  abbrev pub Shrunk : Store → Store → Type 0
  Shrunk s s' =
      (get_replicas H N service s' + 1 ≡ get_replicas H N service s)
      × IsKeyed s'.machine_instance_map
      × (s'.maps ≡ s.maps)

  -- On any outcome `DeleteMachine` of a service with replicas takes one of them from the count, and
  -- keeps every machine under its own id and the labels as they are.
  pub delete_machine_lem :
      StopsMachines H
      → (s : Store) → IsKeyed s.machine_instance_map
      → get_replicas H N service s ≢ 0
      → Shrunk s (delete_machine H N service s).1
  unfolding get_replicas delete_machine get_function_machine required
  delete_machine_lem h s u some_run =
      let (m, found, fits, at) =
        first_serving_lem H N service s.maps s.machine_instance_map u some_run in
      let marked : Machine = record m { state = MachineState.unknown } in
      let t : Store = record s {
        machine_instance_map = store m.uid marked s.machine_instance_map;
      } in
      let done =
        marked-OneLess m s u at fits (machines H N (destroy_machine H N marked t).1)
          (destroy_machine-Destroyed H N h marked t) in
      subst (λ (o : Outcome Machine). Shrunk s (rest o s)) (sym (ap (required H N service) found))
        (done.2, done.1, done.0)
