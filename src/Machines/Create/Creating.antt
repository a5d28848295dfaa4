-- ===== src/Machines/Create/Creating.antt =====
-- `createMachine` as a whole: what it records, and that a failure records nothing and may keep the
-- lock for ever.
use ukfaas.Prelude.{Option, none, some, ◌≡◌, refl, ap, ◌∙◌, true, false, ◌⊎◌, inl, inr, ◌++◌, arith}
use ukfaas.Prelude.Text.{Text, text_eq}
use ukfaas.Prelude.Map.{store}
use ukfaas.Prelude.Exec.{Outcome, ok, err, panic, blocked, Exec, after as after_outcome, ◌>>=◌}
use ukfaas.Network.Api.{NetworkController}
use ukfaas.Machines.Platform.{Machine, Host, Iface}
use ukfaas.Machines.{MachineRequest}
use ukfaas.Machines.Create.{prepare, critical, finish, create_machine, settled, all_pollers}
use ukfaas.Machines.Create.Frames.{Store, locked_entries, prepare-Frame, settled-Frame}
use ukfaas.Machines.Create.Locking.{Fails, Released, critical-Released, create_machine_locked}

module _ (H : Host) (N : NetworkController) where
  abbrev SameEntries : Store H N → Store H N → Type 0
  SameEntries s s' =
      (s'.machine_instance_map ≡ s.machine_instance_map)
      × (s'.machine_network_map ≡ s.machine_network_map)

  -- What `createMachine` promises from a free lock.
  abbrev pub Created : Store H N → Outcome (Unit {0}) × Store H N → Type 0
  Created s r =
      ((m : Machine) × (i : Iface) × (r.0 ≡ ok tt)
        × (r.1.lock ≡ false)
        × (r.1.machine_instance_map ≡ store m.uid m s.machine_instance_map)
        × (r.1.machine_network_map ≡ store m.uid i s.machine_network_map))
      ⊎ (Fails H N r.0 × SameEntries s r.1)

  -- The entries, once the machine has been started.
  entered :
      (i : Iface) (s s' : Store H N) (r : Outcome Machine)
      → locked_entries H N s' ≡ (false, s.machine_instance_map, s.machine_network_map)
      → Created s (
          after_outcome r
            (λ m t. (
              ok tt,
              record t {
                machine_instance_map = store m.uid m t.machine_instance_map;
                machine_network_map = store m.uid i t.machine_network_map;
              },
            ))
            s')
  entered i s s' (ok m) kept = inl (m, i, refl, ground arith, ground arith, ground arith)
  entered i s s' (err e) kept = inr (λ a q. cc, (ground arith, ground arith))
  entered i s s' panic kept = inr (λ a q. cc, (ground arith, ground arith))
  entered i s s' blocked kept = inr (λ a q. cc, (ground arith, ground arith))

  finish-Created :
      (mreq : MachineRequest) (m : Machine) (i : Iface) (s s' : Store H N)
      → locked_entries H N s' ≡ (false, s.machine_instance_map, s.machine_network_map)
      → Created s (finish H N mreq (some m, i) s')
  unfolding finish
  finish-Created mreq m i s s' kept =
      let answer = H.start m s'.world in
      let polled : Store H N = record s' {
        waiting = s'.waiting ++ all_pollers H N mreq.service m.networks;
        world = answer.1;
      } in
      let started = settled H N answer.0 polled in
      entered i s started.1 started.0 ((settled-Frame H N answer.0).at polled ∙ kept)

  finished :
      (mreq : MachineRequest) (s : Store H N) (r : Outcome (Option Machine × Iface) × Store H N)
      → Released H N s r
      → Created s (after_outcome r.0 (finish H N mreq) r.1)
  unfolding finish
  finished mreq s (ok (none, i), s') (_, a, b) = inr (λ x q. cc, (a, b))
  finished mreq s (ok (some m, i), s') (inl (_, _, free), a, b) =
      finish-Created mreq m i s s' (ground (arith, free, a, b))
  finished mreq s (ok x, s') (inr (fails, _), a, b) = absurd (fails x refl)
  finished mreq s (err e, s') (_, a, b) = inr (λ x q. cc, (a, b))
  finished mreq s (panic, s') (_, a, b) = inr (λ x q. cc, (a, b))
  finished mreq s (blocked, s') (_, a, b) = inr (λ x q. cc, (a, b))

  -- What is left to do once the machine has been prepared, on each outcome.
  rest_of : MachineRequest → Outcome (Machine × Text) × Store H N → Outcome (Unit {0}) × Store H N
  rest_of mreq r = after_outcome r.0 (λ p. critical H N mreq p >>= finish H N mreq) r.1

  prepared :
      (mreq : MachineRequest) (s : Store H N) (r : Outcome (Machine × Text) × Store H N)
      → s.lock ≡ false
      → locked_entries H N r.1 ≡ locked_entries H N s
      → Created s (rest_of mreq r)
  unfolding rest_of
  prepared mreq s (ok (m, layer), s') free kept =
      let critical_part = critical-Released H N mreq m layer s' (ground (arith, free, kept)) in
      finished mreq s (critical H N mreq (m, layer) s') (
        critical_part.0,
        ground (arith, critical_part.1, kept),
        ground (arith, critical_part.2, kept),
      )
  prepared mreq s (err e, s') free kept =
      inr (λ x q. cc, (ground (arith, kept), ground (arith, kept)))
  prepared mreq s (panic, s') free kept =
      inr (λ x q. cc, (ground (arith, kept), ground (arith, kept)))
  prepared mreq s (blocked, s') free kept =
      inr (λ x q. cc, (ground (arith, kept), ground (arith, kept)))

  -- From a free lock, `createMachine` returns a nil error, releases the lock, and enters one machine
  -- and its interface under the machine's id; or it fails and no entry of either map changes.
  pub create_machine-Created :
      (mreq : MachineRequest) (s : Store H N)
      → s.lock ≡ false
      → Created s (create_machine H N mreq s)
  unfolding create_machine rest_of
  create_machine-Created mreq s free =
      prepared mreq s (prepare H N mreq s) free ((prepare-Frame H N mreq).at s)

  same_state {ℓ κ} :
      {A : Type ℓ} {B : Type κ} (r : Outcome A) (f : A → Exec (Store H N) B) (s : Store H N)
      → Fails H N r
      → (after_outcome r f s).1 ≡ s
  same_state (ok a) f s h = absurd (h a refl)
  same_state (err e) f s h = refl
  same_state panic f s h = refl
  same_state blocked f s h = refl

  failed_state :
      (mreq : MachineRequest) (s : Store H N) (p : Machine × Text)
      → (prepare H N mreq s).0 ≡ ok p
      → Fails H N (critical H N mreq p (prepare H N mreq s).1).0
      → (create_machine H N mreq s).1 ≡ (critical H N mreq p (prepare H N mreq s).1).1
  unfolding create_machine
  failed_state mreq s p e fails =
      let c = critical H N mreq p (prepare H N mreq s).1 in
      rw e (same_state c.0 (finish H N mreq) c.1 fails)

  kept_lock :
      (s : Store H N) (r : Outcome (Option Machine × Iface) × Store H N)
      → Released H N s r
      → Fails H N r.0
      → r.1.lock ≡ true
  kept_lock s r (inl (x, q, _), _, _) fails = absurd (fails x q)
  kept_lock s r (inr (_, l), _, _) fails = l

  -- If a call fails while it holds the lock, then no later call of `createMachine` returns a nil
  -- error.
  pub create_machine_after_failure :
      (mreq later : MachineRequest) (s : Store H N) (m : Machine) (layer : Text)
      → s.lock ≡ false
      → (prepare H N mreq s).0 ≡ ok (m, layer)
      → Fails H N (critical H N mreq (m, layer) (prepare H N mreq s).1).0
      → Fails H N (create_machine H N later (create_machine H N mreq s).1).0
  create_machine_after_failure mreq later s m layer free e fails =
      let s1 = (prepare H N mreq s).1 in
      let free1 : s1.lock ≡ false = ground (arith, free, (prepare-Frame H N mreq).at s) in
      let c = critical H N mreq (m, layer) s1 in
      let taken = kept_lock s1 c (critical-Released H N mreq m layer s1 free1) fails in
      let same = failed_state mreq s (m, layer) e fails in
      (create_machine_locked H N later (create_machine H N mreq s).1
        (ap (λ (t : Store H N). t.lock) same ∙ taken)).0
