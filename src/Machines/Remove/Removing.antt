-- ===== src/Machines/Remove/Removing.antt =====
-- What `destroyMachine` does to the entries of machines.
use ukfaas.Prelude.{◌≡◌, refl, sym, subst, ap, ◌∙◌, inl, inr, ◌⊎◌, false, Option, none, some, arith}
use ukfaas.Prelude.Text.{Text, text_eq}
use ukfaas.Prelude.Map.{Map, store, remove}
use ukfaas.Prelude.Exec.{
  ok-injective, Outcome, ok, err, panic, blocked, Exec, after as after_outcome, ◌>>=◌, pure, modify,
}
use ukfaas.Prelude.Ensures.{Ensures, Ensures-bind, Ensures-bind_of}
use ukfaas.Network.Api.{NetworkController}
use ukfaas.Machines.Platform.{Machine, Iface, Host, Answer, is_running}
use ukfaas.Machines.{Maps, MachineStore, ask}
use ukfaas.Machines.Remove.Frames.{entries, stop_machine-Frame, delete_link-Frame, rest_of, lifted}
use ukfaas.Machines.Remove.{
  linked, delete_link, forget_machine, returned, Stopped, stop_machine, stop_known, destroy_machine,
}

-- `Stop` returns nil, or the machine that it was given, no longer running.
pub record StopsMachines (H : Host) : Type 0 where
  pub same_uid : (m m' : Machine) (w : H.World) → (H.stop m w).0.machine ≡ some m' → m'.uid ≡ m.uid
  pub stopped :
      (m m' : Machine) (w : H.World)
      → (H.stop m w).0.machine ≡ some m'
      → is_running m'.state ≡ false

abbrev pub Touched : Text → Map Text Machine × Maps → Map Text Machine × Maps → Type 0
Touched uid (ms, maps) (ms', maps') =
    (maps' ≡ maps)
    × ((ms' ≡ ms)
        ⊎ ((m : Machine) × (m.uid ≡ uid) × (is_running m.state ≡ false) × (ms' ≡ store uid m ms))
        ⊎ (ms' ≡ remove uid ms))

module _ (H : Host) (N : NetworkController) where
  abbrev Store : Type 0
  Store = MachineStore H N

  -- The machines and the heap of their labels.
  abbrev pub machines : Store → Map Text Machine × Maps
  machines s = (s.machine_instance_map, s.maps)

  machines_of_entries : (s t : Store) → entries H N t ≡ entries H N s → machines t ≡ machines s
  machines_of_entries s t e = ap (λ (x : Map Text Machine × Map Text Iface × Maps). (x.0, x.2)) e

  -- The entry `uid` is as it was, or holds a machine of that id which does not run, or is gone; no
  -- other entry and no label has changed.
  abbrev pub Destroyed : Text → Store → Store → Type 0
  Destroyed uid s s' = Touched uid (machines s) (machines s')

  -- The machine that `Stop` returned, if any, is stopped and has the id.
  abbrev IsStopped : Text → Stopped H N → Type 0
  IsStopped uid r =
      (m : Machine) → r.machine ≡ some m → (m.uid ≡ uid) × (is_running m.state ≡ false)

  -- What is known of the answer of `Stop`.
  abbrev WasStopped : Machine → Answer → Type 0
  WasStopped m answer =
      (m' : Machine) → answer.machine ≡ some m' → (m'.uid ≡ m.uid) × (is_running m'.state ≡ false)

  stop-WasStopped : StopsMachines H → (m : Machine) → Ensures (WasStopped m) (ask H N (H.stop m))
  stop-WasStopped h m = record {
    at = λ s answer e m' same.
        let eq : (H.stop m s.world).0.machine ≡ some m' = cc in
        (h.same_uid m m' s.world eq, h.stopped m m' s.world eq);
  }

  known-IsStopped :
      (m : Machine) (if_name short : Text) (link_error : Option Text) (answer : Answer)
      → WasStopped m answer
      → Ensures {S = Store} (IsStopped m.uid) (
          pure (record {
            if_name = if_name;
            short = short;
            link_error = link_error;
            machine = answer.machine;
          }))
  known-IsStopped m if_name short link_error answer w = record {
    at = λ s r e m' same. w m' (ap (λ (x : Stopped H N). x.machine) (ok-injective e) ∙ same);
  }

  linked-IsStopped :
      (m : Machine) (if_name : Text) (answer : Answer)
      → WasStopped m answer
      → Ensures (IsStopped m.uid) (linked H N if_name answer)
  unfolding linked
  linked-IsStopped m if_name answer w =
      search
        (
          Ensures-bind,
          λ (short : Text) (e : Option Text). known-IsStopped m if_name short e answer w,
        )
        depth 10

  stopping-IsStopped :
      StopsMachines H
      → (m : Machine) (if_name : Text)
      → Ensures (IsStopped m.uid) (ask H N (H.stop m) >>= linked H N if_name)
  stopping-IsStopped h m if_name =
      Ensures-bind_of (WasStopped m) (ask H N (H.stop m)) (linked H N if_name) (stop-WasStopped h m)
        (linked-IsStopped m if_name)

  stop_machine-IsStopped :
      StopsMachines H → (m : Machine) → Ensures (IsStopped m.uid) (stop_machine H N m)
  unfolding stop_machine stop_known
  stop_machine-IsStopped h m = search (Ensures-bind, stopping-IsStopped h) depth 10

  abbrev erase_entries : Text → Exec Store (Unit {0})
  erase_entries uid = modify λ s. record s {
    machine_instance_map = remove uid s.machine_instance_map;
    machine_network_map = remove uid s.machine_network_map;
  }

  erased :
      (uid : Text) (s t : Store) (o : Outcome (Unit {0}))
      → machines t ≡ machines s
      → Destroyed uid s (after_outcome o (λ _. erase_entries uid) t).1
  erased uid s t (ok _) kept = (ground arith, inr (inr (ground arith)))
  erased uid s t (err e) kept = (ground arith, inl (ground arith))
  erased uid s t panic kept = (ground arith, inl (ground arith))
  erased uid s t blocked kept = (ground arith, inl (ground arith))

  forget_machine-Destroyed :
      (uid if_name short : Text) (link_error : Option Text) (o : Option Machine) (s : Store)
      → ((m : Machine) → o ≡ some m → (m.uid ≡ uid) × (is_running m.state ≡ false))
      → Destroyed uid s (forget_machine H N uid if_name short link_error o s).1
  unfolding forget_machine
  forget_machine-Destroyed uid if_name short link_error none s h =
      let d = delete_link H N if_name short link_error s in
      erased uid s d.1 d.0
        (machines_of_entries s d.1 ((delete_link-Frame H N if_name short link_error).at s))
  forget_machine-Destroyed uid if_name short link_error (some m) s h =
      (refl, inr (inl (m, (h m refl).0, (h m refl).1, refl)))

  rest_of-Destroyed :
      (uid : Text) (s : Store) (r : Outcome (Stopped H N) × Store)
      → machines r.1 ≡ machines s
      → ((x : Stopped H N) → r.0 ≡ ok x → IsStopped uid x)
      → Destroyed uid s (rest_of H N uid r)
  unfolding rest_of
  rest_of-Destroyed uid s (ok x, t) kept stopped =
      let f = forget_machine H N uid x.if_name x.short x.link_error x.machine t in
      subst (λ p. Touched uid p (machines (rest_of H N uid (ok x, t)))) kept
        (subst (λ (u : Store). Touched uid (machines t) (machines u))
          (sym (lifted H N (returned H N x.link_error) f.0 f.1))
          (forget_machine-Destroyed uid x.if_name x.short x.link_error x.machine t
            (stopped x refl)))
  rest_of-Destroyed uid s (err e, t) kept stopped = (ground arith, inl (ground arith))
  rest_of-Destroyed uid s (panic, t) kept stopped = (ground arith, inl (ground arith))
  rest_of-Destroyed uid s (blocked, t) kept stopped = (ground arith, inl (ground arith))

  -- Whatever its outcome, `destroyMachine` touches no entry of a machine but the one it is given.
  pub destroy_machine-Destroyed :
      StopsMachines H → (m : Machine) (s : Store) → Destroyed m.uid s (destroy_machine H N m s).1
  unfolding destroy_machine rest_of
  destroy_machine-Destroyed h m s =
      rest_of-Destroyed m.uid s (stop_machine H N m s)
        (machines_of_entries s (stop_machine H N m s).1 ((stop_machine-Frame H N m).at s))
        ((stop_machine-IsStopped h m).at s)
