-- ===== src/Machines/Create/Interleaving.antt =====
-- The lock of `createMachine` under every schedule of the calls.
use ukfaas.Prelude.{
  ℕ, zero, suc, ◌+◌, ◌-◌, ◌≤◌, ◌≡◌, refl, ap, ◌∙◌, Bool, true, false, Option, none, some, List, [],
  ◌∷◌, ◌++◌, arith,
}
use ukfaas.Prelude.Lists.{if◌then◌else◌, get_elem?, set}
use ukfaas.Prelude.Text.{Text, text_eq}
use ukfaas.Prelude.Exec.{Outcome, ok, err, panic, blocked, after as after_outcome}
use ukfaas.Prelude.Map.{Map, store}
use ukfaas.Prelude.Frame.{Frame}
use ukfaas.Network.Api.{NetworkController}
use ukfaas.Machines.Platform.{Machine, Host, Iface, Answer}
use ukfaas.Machines.{MachineRequest, MachineStore, Maps, get_function_machine}
use ukfaas.Machines.Create.{prepare, acquire, held, release, finish, settled, all_pollers}
use ukfaas.Machines.Create.Frames.{settled-Frame, prepare-Frame}
use ukfaas.Machines.Create.Locking.{held-Frame}
use ukfaas.Machines.Create.Callers.{
  Caller, cloning, Call, creation, clone, after_search, starting, prepared, inside, leaving,
  launched, failed_inside, ended, Creating, after_prepare, after_acquire, after_held, advance,
  advance_at, step, run, begun,
}

-- Whether a call holds the lock, or has not released it.
abbrev pub holds_lock : Caller → ℕ
holds_lock (inside mreq p) = 1
holds_lock (leaving mreq l) = 1
holds_lock failed_inside = 1
holds_lock _ = 0

abbrev pub holders : List Caller → ℕ
holders [] = 0
holders (g ∷ gs) = holds_lock g + holders gs

abbrev pub flag : Bool → ℕ
flag b = if b then 1 else 0

holders-set :
    (gs : List Caller) (i : ℕ) (g g' : Caller)
    → get_elem? gs i ≡ some g
    → holders (set gs i g') + holds_lock g ≡ holders gs + holds_lock g'
holders-set [] i g g' e = cc
holders-set (x ∷ gs) zero g g' e = ground (arith, e)
holders-set (x ∷ gs) (suc i) g g' e = omega (arith, holders-set gs i g g' e)

holders_of_get :
    (gs : List Caller) (i : ℕ) (g : Caller) → get_elem? gs i ≡ some g → holds_lock g ≤ holders gs
holders_of_get [] i g e = cc
holders_of_get (x ∷ gs) zero g e = ground (arith, e)
holders_of_get (x ∷ gs) (suc i) g e = omega (arith, holders_of_get gs i g e)

module _ (H : Host) (N : NetworkController) where
  abbrev Store : Type 0
  Store = MachineStore H N

  -- A step of a call passes the lock on in step with the count of its holders, if others hold it
  -- `n` times.
  abbrev Passes : Caller → Store → Caller × Store → Type 0
  Passes g s (g', s') = (n : ℕ) → n + holds_lock g ≡ flag s.lock → n + holds_lock g' ≡ flag s'.lock

  holds-after_search :
      (maps : Maps) (o : Outcome Machine) → holds_lock (after_search H N maps o) ≡ 0
  unfolding after_search
  holds-after_search maps (ok m) = refl
  holds-after_search maps (err e) = refl
  holds-after_search maps panic = refl
  holds-after_search maps blocked = refl

  holds-after_prepare :
      (mreq : MachineRequest) (o : Outcome (Machine × Text))
      → holds_lock (after_prepare H N mreq o) ≡ 0
  unfolding after_prepare
  holds-after_prepare mreq (ok p) = refl
  holds-after_prepare mreq (err e) = refl
  holds-after_prepare mreq panic = refl
  holds-after_prepare mreq blocked = refl

  holds-after_held :
      (mreq : MachineRequest) (o : Outcome (Option Machine × Iface))
      → holds_lock (after_held H N mreq o) ≡ 1
  unfolding after_held
  holds-after_held mreq (ok l) = refl
  holds-after_held mreq (err e) = refl
  holds-after_held mreq panic = refl
  holds-after_held mreq blocked = refl

  settled-lock : (a : Answer) → Frame (λ (s : Store). s.lock) (settled H N a)
  settled-lock a = record {
    at = λ s.
        ap (λ (x : Bool × Map Text Machine × Map Text Iface). x.0) ((settled-Frame H N a).at s);
  }

  entered-lock :
      (i : Iface) (r : Outcome Machine) (t : Store)
      → (after_outcome {0, 0, 0} r
          (λ m u. (
            ok tt,
            record u {
              machine_instance_map = store m.uid m u.machine_instance_map;
              machine_network_map = store m.uid i u.machine_network_map;
            },
          ))
          t).1.lock
        ≡ t.lock
  entered-lock i (ok m) t = refl
  entered-lock i (err e) t = refl
  entered-lock i panic t = refl
  entered-lock i blocked t = refl

  finish-lock :
      (mreq : MachineRequest) (l : Option Machine × Iface) (s : Store)
      → (finish H N mreq l s).1.lock ≡ s.lock
  unfolding finish
  finish-lock mreq (none, i) s = refl
  finish-lock mreq (some m, i) s =
      let answer = H.start m s.world in
      let polled : Store = record s {
        waiting = s.waiting ++ all_pollers H N mreq.service m.networks;
        world = answer.1;
      } in
      let started = settled H N answer.0 polled in
      entered-lock i started.0 started.1 ∙ (settled-lock answer.0).at polled

  prepare-lock : (mreq : MachineRequest) (s : Store) → (prepare H N mreq s).1.lock ≡ s.lock
  prepare-lock mreq s =
      ap (λ (x : Bool × Map Text Machine × Map Text Iface). x.0) ((prepare-Frame H N mreq).at s)

  held-lock :
      (mreq : MachineRequest) (p : Machine × Text) (s : Store) → (held H N mreq p s).1.lock ≡ s.lock
  held-lock mreq (m, layer) s =
      ap (λ (x : Bool × Map Text Machine × Map Text Iface). x.0)
        ((held-Frame H N mreq m layer).at s)

  acquired :
      (mreq : MachineRequest) (p : Machine × Text) (s : Store) (b : Bool)
      → s.lock ≡ b
      → Passes (prepared mreq p) s (after_acquire H N mreq p (acquire H N s).0, (acquire H N s).1)
  unfolding acquire after_acquire
  acquired mreq p s true e n h = rw e (rw e at h)
  acquired mreq p s false e n h = rw e (ground (arith, e))

  advance-Passes : (g : Caller) (s : Store) → Passes g s (advance H N g s)
  unfolding advance release
  advance-Passes (cloning service) s n h =
      rw (holds-after_search s.maps (get_function_machine H N service s).0) h
  advance-Passes (starting mreq) s n h =
      rw (holds-after_prepare mreq (prepare H N mreq s).0, prepare-lock mreq s) h
  advance-Passes (prepared mreq p) s n h = acquired mreq p s s.lock refl n h
  advance-Passes (inside mreq p) s n h =
      rw (holds-after_held mreq (held H N mreq p s).0, held-lock mreq p s) h
  advance-Passes (leaving mreq l) s n h = ground arith
  advance-Passes (launched mreq l) s n h = rw (finish-lock mreq l s) h
  advance-Passes failed_inside s n h = h
  advance-Passes ended s n h = h

  -- The lock is held as often as calls hold it.
  abbrev pub IsExclusive : Creating H N → Type 0
  IsExclusive c = holders c.callers ≡ flag c.machines.lock

  advance_at-IsExclusive :
      (i : ℕ) (c : Creating H N) (o : Option Caller)
      → get_elem? c.callers i ≡ o
      → IsExclusive c
      → IsExclusive (advance_at H N i o c)
  unfolding advance_at
  advance_at-IsExclusive i c none e v = v
  advance_at-IsExclusive i c (some g) e v =
      let out = advance H N g c.machines in
      let others = holders c.callers - holds_lock g in
      omega (
        arith,
        holders_of_get c.callers i g e,
        holders-set c.callers i g out.0 e,
        advance-Passes g c.machines others (omega (arith, v, holders_of_get c.callers i g e)),
      )

  kept_by_run :
      (schedule : List ℕ) (c : Creating H N) → IsExclusive c → IsExclusive (run H N schedule c)
  unfolding run step
  kept_by_run [] c v = v
  kept_by_run (i ∷ schedule) c v =
      kept_by_run schedule (step H N i c)
        (advance_at-IsExclusive i c (get_elem? c.callers i) refl v)

  starting-holders : (calls : List Call) (s : Store) → holders (begun H N calls s).callers ≡ 0
  unfolding begun
  starting-holders [] s = refl
  starting-holders (creation mreq ∷ calls) s = omega (arith, starting-holders calls s)
  starting-holders (clone service ∷ calls) s = omega (arith, starting-holders calls s)

  begun-IsExclusive :
      (calls : List Call) (s : Store) → s.lock ≡ false → IsExclusive (begun H N calls s)
  unfolding begun
  begun-IsExclusive calls s free = ground (arith, starting-holders calls s, free)

  flag_le : (b : Bool) → flag b ≤ 1
  flag_le true = omega arith
  flag_le false = omega arith

  -- Whatever the order in which any number of calls of `createMachine` and `CloneMachine` take their steps
  -- from a free lock, at every moment at most one of them is between `Lock` and `Unlock` or has failed there, and
  -- the lock is held exactly if one is or has.
  pub run-IsExclusive :
      (calls : List Call) (schedule : List ℕ) (s : Store)
      → s.lock ≡ false
      → let c = run H N schedule (begun H N calls s) in
        (holders c.callers ≤ 1) × (holders c.callers ≡ (if c.machines.lock then 1 else 0))
  run-IsExclusive calls schedule s free =
      let c = run H N schedule (begun H N calls s) in
      let v = kept_by_run schedule (begun H N calls s) (begun-IsExclusive calls s free) in
      (omega (arith, v, flag_le c.machines.lock), v)
