-- ===== src/Machines/Remove/Wiring.antt =====
-- Every machine has an interface, and `destroyMachine` keeps that.
use ukfaas.Prelude.{◌≡◌, ◌≢◌, refl, sym, subst, ap, ◌∙◌, ◌≢◌, Option, none, some, arith}
use ukfaas.Prelude.Text.{Text, text_eq}
use ukfaas.Prelude.Map.{Map, load, store, remove, load-store, load-store_ne, load-remove}
use ukfaas.Prelude.Exec.{Outcome, ok, err, panic, blocked, after as after_outcome}
use ukfaas.Network.Api.{NetworkController}
use ukfaas.Machines.Platform.{Machine, Iface, Host}
use ukfaas.Machines.{Maps, MachineStore}
use ukfaas.Machines.Remove.Frames.{
  entries, machine_controller-Frame, stop_machine-Frame, delete_link-Frame, rest_of, lifted,
}
use ukfaas.Machines.Remove.{
  delete_link, forget_machine, required_iface, returned, machine_controller, Stopped, stop_known,
  stop_machine, destroy_machine,
}

-- An id without an interface has no machine.
abbrev pub Wired : Map Text Machine → Map Text Iface → Type 0
Wired ms nets = (uid : Text) → load uid nets ≡ none → load uid ms ≡ none

pub store_both-Wired :
    (uid : Text) (m : Machine) (i : Iface) (ms : Map Text Machine) (nets : Map Text Iface)
    → Wired ms nets
    → Wired (store uid m ms) (store uid i nets)
store_both-Wired uid m i ms nets w j e =
    ground (arith, load-store j uid m ms, load-store j uid i nets, w j)

pub store-Wired :
    (uid : Text) (m : Machine) (ms : Map Text Machine) (nets : Map Text Iface)
    → load uid nets ≢ none
    → Wired ms nets
    → Wired (store uid m ms) nets
store-Wired uid m ms nets there w j e = elim (text_eq.dec uid j) [
  | yes p ↦ absurd (there (subst (λ k. load k nets ≡ none) (sym p) e))
  | no n ↦ load-store_ne j uid m ms n ∙ w j e
]

pub remove_both-Wired :
    (uid : Text) (ms : Map Text Machine) (nets : Map Text Iface)
    → Wired ms nets
    → Wired (remove uid ms) (remove uid nets)
remove_both-Wired uid ms nets w j e =
    ground (arith, load-remove j uid ms, load-remove j uid nets, w j)

module _ (H : Host) (N : NetworkController) where
  abbrev Store : Type 0
  Store = MachineStore H N

  abbrev pub IsWired : Store → Type 0
  IsWired s = Wired s.machine_instance_map s.machine_network_map

  pub same-IsWired : (s t : Store) → entries H N t ≡ entries H N s → IsWired s → IsWired t
  same-IsWired s t e w =
      subst (λ (x : Map Text Machine × Map Text Iface × Maps). Wired x.0 x.1) (sym e) w

  absent :
      (m : Machine) (t : Store) (x : Stopped H N)
      → load m.uid t.machine_network_map ≡ none
      → (stop_known H N m t).0 ≢ ok x
  unfolding stop_known required_iface
  absent m t x e = rw e (λ q. cc)

  controlled :
      (m : Machine) (s t : Store) (x : Stopped H N) (o : Outcome (Unit {0}))
      → entries H N t ≡ entries H N s
      → load m.uid s.machine_network_map ≡ none
      → (after_outcome o (λ _. stop_known H N m) t).0 ≢ ok x
  controlled m s t x (ok _) kept e q =
      absent m t x (ap (λ (y : Map Text Machine × Map Text Iface × Maps). load m.uid y.1) kept ∙ e)
        q
  controlled m s t x (err y) kept e q = cc
  controlled m s t x panic kept e q = cc
  controlled m s t x blocked kept e q = cc

  -- A machine that was stopped had an interface.
  stop_machine-found :
      (m : Machine) (s : Store) (x : Stopped H N)
      → (stop_machine H N m s).0 ≡ ok x
      → load m.uid s.machine_network_map ≢ none
  unfolding stop_machine
  stop_machine-found m s x q e =
      let c = machine_controller H N s in
      controlled m s c.1 x c.0 ((machine_controller-Frame H N).at s) e q

  erased-IsWired :
      (uid : Text) (o : Outcome (Unit {0})) (t : Store)
      → IsWired t
      → IsWired
          (after_outcome {0, 0, 0} o
            (λ _ (u : Store). (
              ok tt,
              record u {
                machine_instance_map = remove uid u.machine_instance_map;
                machine_network_map = remove uid u.machine_network_map;
              },
            ))
            t).1
  erased-IsWired uid (ok _) t w =
      remove_both-Wired uid t.machine_instance_map t.machine_network_map w
  erased-IsWired uid (err e) t w = w
  erased-IsWired uid panic t w = w
  erased-IsWired uid blocked t w = w

  forget_machine-IsWired :
      (uid if_name short : Text) (e : Option Text) (o : Option Machine) (s : Store)
      → load uid s.machine_network_map ≢ none
      → IsWired s
      → IsWired (forget_machine H N uid if_name short e o s).1
  unfolding forget_machine
  forget_machine-IsWired uid if_name short e (some m) s there w =
      store-Wired uid m s.machine_instance_map s.machine_network_map there w
  forget_machine-IsWired uid if_name short e none s there w =
      let d = delete_link H N if_name short e s in
      erased-IsWired uid d.0 d.1
        (same-IsWired s d.1 ((delete_link-Frame H N if_name short e).at s) w)

  rest_of-IsWired :
      (uid : Text) (s : Store) (r : Outcome (Stopped H N) × Store)
      → entries H N r.1 ≡ entries H N s
      → ((x : Stopped H N) → r.0 ≡ ok x → load uid s.machine_network_map ≢ none)
      → IsWired s
      → IsWired (rest_of H N uid r)
  unfolding rest_of
  rest_of-IsWired uid s (ok x, t) kept there w =
      let f = forget_machine H N uid x.if_name x.short x.link_error x.machine t in
      let there' : load uid t.machine_network_map ≢ none = λ e.
        there x refl
          (sym (ap (λ (y : Map Text Machine × Map Text Iface × Maps). load uid y.1) kept) ∙ e) in
      subst IsWired (sym (lifted H N (returned H N x.link_error) f.0 f.1)) (
        forget_machine-IsWired uid x.if_name x.short x.link_error x.machine t there'
          (same-IsWired s t kept w))
  rest_of-IsWired uid s (err e, t) kept there w = same-IsWired s t kept w
  rest_of-IsWired uid s (panic, t) kept there w = same-IsWired s t kept w
  rest_of-IsWired uid s (blocked, t) kept there w = same-IsWired s t kept w

  -- Whatever its outcome, `destroyMachine` leaves no machine without an interface, if there was none.
  pub destroy_machine-IsWired :
      (m : Machine) (s : Store) → IsWired s → IsWired (destroy_machine H N m s).1
  unfolding destroy_machine rest_of
  destroy_machine-IsWired m s w =
      rest_of-IsWired m.uid s (stop_machine H N m s) ((stop_machine-Frame H N m).at s)
        (stop_machine-found m s) w
