-- ===== src/Machines/Counting.antt =====
-- `GetReplicas`, `getFunctionMachine` and `GetMachinesForFunction` against one another, and how an
-- entry changes the count.
use ukfaas.Prelude.{
  ℕ, ◌+◌, ◌≤◌, ◌≡◌, ◌≢◌, refl, inl, inr, true, Option, none, some, [], ◌∷◌, ◌++◌, ◌⊎◌, ℕ_discrete,
  arith,
}
use ukfaas.Prelude.Lists.{if◌then◌else◌, length, Bool-cases}
use ukfaas.Prelude.Text.{Text, text, text_eq}
use ukfaas.Prelude.Map.{Map, load, store, remove, load-nil, load-store, load-remove}
use ukfaas.Prelude.Exec.{ok, err}
use ukfaas.Network.Api.{NetworkController}
use ukfaas.Machines.Platform.{Machine, Host}
use ukfaas.Machines.{
  MachineStore, Maps, serves, count_serving, first_serving, machines_of, get_replicas,
  get_function_machine, get_machines_for_function,
}

-- Every machine is entered under its own id, once.
abbrev pub IsKeyed : Map Text Machine → Type 0
IsKeyed [] = Unit {0}
IsKeyed ((uid, m) ∷ rest) = (uid ≡ m.uid) × (load uid rest ≡ none) × IsKeyed rest

-- What one entry adds to the count.
abbrev pub counted : Text → Maps → Option Machine → ℕ
counted service maps none = 0
counted service maps (some m) = if serves service maps m then 1 else 0

module _ (H : Host) (N : NetworkController) (service : Text) (maps : Maps) where
  pub count_serving-store :
      (uid : Text) (new : Machine) (ms : Map Text Machine)
      → count_serving H N service maps (store uid new ms) + counted service maps (load uid ms)
        ≡ count_serving H N service maps ms + counted service maps (some new)
  unfolding count_serving store load
  count_serving-store uid new [] = ground arith
  count_serving-store uid new ((k, m) ∷ ms) = ground (arith, count_serving-store uid new ms)

  count_serving-remove_absent :
      (uid : Text) (ms : Map Text Machine)
      → load uid ms ≡ none
      → count_serving H N service maps (remove uid ms) ≡ count_serving H N service maps ms
  unfolding count_serving remove load
  count_serving-remove_absent uid [] e = refl
  count_serving-remove_absent uid ((k, m) ∷ ms) e =
      ground (arith, count_serving-remove_absent uid ms)

  pub count_serving-remove :
      (uid : Text) (ms : Map Text Machine)
      → IsKeyed ms
      → count_serving H N service maps (remove uid ms) + counted service maps (load uid ms)
        ≡ count_serving H N service maps ms
  unfolding count_serving remove load
  count_serving-remove uid [] u = omega arith
  count_serving-remove uid ((k, m) ∷ ms) u =
      ground (arith, count_serving-remove uid ms u.2, count_serving-remove_absent uid ms)

  -- The first machine that fits, if the count says that there is one.
  pub first_serving_lem :
      (ms : Map Text Machine)
      → IsKeyed ms
      → count_serving H N service maps ms ≢ 0
      → (m : Machine) × (first_serving H N service maps ms ≡ some m)
        × (serves service maps m ≡ true)
        × (load m.uid ms ≡ some m)
  unfolding count_serving first_serving load
  first_serving_lem [] u h = absurd (h refl)
  first_serving_lem ((k, m) ∷ ms) u h = elim (Bool-cases (serves service maps m)) [
    | inl fits ↦ (m, rw fits, fits, ground (arith, u.0))
    | inr other ↦
        let (x, found, fits, at) = first_serving_lem ms u.2 (ground (arith, other)) in
        (x, rw other found, fits, ground (arith, at, u.1))
  ]

  pub first_serving-none :
      (ms : Map Text Machine)
      → count_serving H N service maps ms ≡ 0
      → first_serving H N service maps ms ≡ none
  unfolding count_serving first_serving
  first_serving-none [] h = refl
  first_serving-none ((k, m) ∷ ms) h = ground (arith, first_serving-none ms)

pub store-IsKeyed :
    (new : Machine) (ms : Map Text Machine) → IsKeyed ms → IsKeyed (store new.uid new ms)
unfolding store
store-IsKeyed new [] u = (refl, load-nil new.uid, tt)
store-IsKeyed new ((k, m) ∷ ms) u =
    ground (arith, store-IsKeyed new ms u.2, load-store k new.uid new ms)

pub remove-IsKeyed : (uid : Text) (ms : Map Text Machine) → IsKeyed ms → IsKeyed (remove uid ms)
unfolding remove
remove-IsKeyed uid [] u = tt
remove-IsKeyed uid ((k, m) ∷ ms) u = ground (arith, remove-IsKeyed uid ms u.2, load-remove k uid ms)

length-machines_of :
    (H : Host) (N : NetworkController) (service : Text) (maps : Maps) (ms : Map Text Machine)
    → count_serving H N service maps ms ≤ length (machines_of H N service maps ms)
unfolding count_serving machines_of serves
length-machines_of H N service maps [] = omega arith
length-machines_of H N service maps ((k, m) ∷ ms) =
    ground (arith, length-machines_of H N service maps ms)

-- `getFunctionMachine` fails exactly when `GetReplicas` counts no machine; otherwise it returns a
-- running machine of the service that the store has under its id. The replicas are at most the
-- machines of the service.
pub get_function_machine_lem :
    (H : Host) (N : NetworkController) (service : Text) (s : MachineStore H N)
    → IsKeyed s.machine_instance_map
    → ((get_replicas H N service s ≡ 0)
          × ((get_function_machine H N service s).0
              ≡ err (text "function " ++ (service ++ text " not found")))
        ⊎ (get_replicas H N service s ≢ 0)
          × ((m : Machine) × ((get_function_machine H N service s).0 ≡ ok m)
              × (serves service s.maps m ≡ true)
              × (load m.uid s.machine_instance_map ≡ some m)))
      × (get_replicas H N service s ≤ length (get_machines_for_function H N service s))
unfolding get_replicas get_function_machine get_machines_for_function
get_function_machine_lem H N service s u = (
  elim (ℕ_discrete (count_serving H N service s.maps s.machine_instance_map) 0) [
    | yes z ↦ inl (z, rw (first_serving-none H N service s.maps s.machine_instance_map z))
    | no nz ↦
        let (m, found, fits, at) =
          first_serving_lem H N service s.maps s.machine_instance_map u nz in
        inr (nz, (m, rw found, fits, at))
  ],
  length-machines_of H N service s.maps s.machine_instance_map,
)
