-- ===== src/Machines/Create/Locking.antt =====
-- The lock of `createMachine`: it is held from the network to the start of the machine, and an error
-- in between returns without releasing it.
use ukfaas.Prelude.{Option, ◌≡◌, ◌≢◌, refl, subst, sym, ◌∙◌, true, false, ◌⊎◌, inl, inr, arith}
use ukfaas.Prelude.Text.{Text}
use ukfaas.Prelude.Exec.{Outcome, ok, err, panic, blocked, after as after_outcome, ◌>>=◌, pure}
use ukfaas.Prelude.Frame.{Frame, Frame-bind}
use ukfaas.Network.Api.{NetworkController}
use ukfaas.Machines.Platform.{Machine, Host, Iface}
use ukfaas.Machines.{MachineRequest}
use ukfaas.Machines.Create.{
  prepare, acquire, held, release, attach, describe, launch, critical, finish, create_machine,
}
use ukfaas.Machines.Create.Frames.{
  Store, locked_entries, prepare-Frame, attach-Frame, describe-Frame, launch-Frame,
}

module _ (H : Host) (N : NetworkController) where
  -- The call has not returned a nil error.
  abbrev pub Fails {ℓ} : {A : Type ℓ} → Outcome A → Type ℓ
  Fails {A} r = (a : A) → r ≢ ok a

  pub held-Frame :
      (mreq : MachineRequest) (m : Machine) (layer : Text)
      → Frame (locked_entries H N) (held H N mreq (m, layer))
  unfolding held
  held-Frame mreq m layer = Frame-bind (attach H N m) _ (attach-Frame H N m) λ a.
      Frame-bind (describe H N mreq layer a.0) _ (describe-Frame H N mreq layer a.0)
        λ d. Frame-bind (launch H N d) _ (launch-Frame H N d) λ l. record { at = λ s. refl }

  -- What `critical` promises from a free lock: its success releases the lock, its failure leaves it
  -- held; no entry changes.
  abbrev pub Released : Store H N → Outcome (Option Machine × Iface) × Store H N → Type 0
  Released s r =
      (((x : Option Machine × Iface) × (r.0 ≡ ok x) × (r.1.lock ≡ false))
        ⊎ (Fails r.0 × (r.1.lock ≡ true)))
      × (r.1.machine_instance_map ≡ s.machine_instance_map)
      × (r.1.machine_network_map ≡ s.machine_network_map)

  released :
      (s s' : Store H N) (r : Outcome (Option Machine × Iface))
      → locked_entries H N s' ≡ (true, s.machine_instance_map, s.machine_network_map)
      → Released s (after_outcome r (λ x. release H N >>= λ _. pure x) s')
  unfolding release
  released s s' (ok x) kept = (inl (x, refl, refl), ground arith, ground arith)
  released s s' (err e) kept = (inr (λ x q. cc, ground arith), ground arith, ground arith)
  released s s' panic kept = (inr (λ x q. cc, ground arith), ground arith, ground arith)
  released s s' blocked kept = (inr (λ x q. cc, ground arith), ground arith, ground arith)

  pub critical-Released :
      (mreq : MachineRequest) (m : Machine) (layer : Text) (s : Store H N)
      → s.lock ≡ false
      → Released s (critical H N mreq (m, layer) s)
  unfolding critical acquire
  critical-Released mreq m layer s free =
      let taken : Store H N = record s { lock = true } in
      let out = held H N mreq (m, layer) taken in
      subst (Released s) (sym (critical-free s free))
        (released s out.1 out.0 ((held-Frame mreq m layer).at taken))
    where
      critical-free :
          (s : Store H N)
          → s.lock ≡ false
          → critical H N mreq (m, layer) s
            ≡ after_outcome
                (held H N mreq (m, layer) (record s { lock = true })).0
                (λ x. release H N >>= λ _. pure x)
                (held H N mreq (m, layer) (record s { lock = true })).1
      critical-free s free = rw free

  -- Nothing gets past the lock while it is held.
  waits :
      (mreq : MachineRequest) (r : Outcome (Machine × Text)) (s : Store H N)
      → s.lock ≡ true
      → let out = after_outcome r (λ p. critical H N mreq p >>= finish H N mreq) s in
        Fails out.0 × (locked_entries H N out.1 ≡ locked_entries H N s)
  unfolding critical acquire
  waits mreq (ok p) s taken = rw taken (λ x q. cc, refl)
  waits mreq (err e) s taken = (λ x q. cc, refl)
  waits mreq panic s taken = (λ x q. cc, refl)
  waits mreq blocked s taken = (λ x q. cc, refl)

  -- While the lock is held, no call of `createMachine` returns a nil error: it fails before the lock,
  -- or waits for it for ever. The lock stays held and no entry changes.
  pub create_machine_locked :
      (mreq : MachineRequest) (s : Store H N)
      → s.lock ≡ true
      → Fails (create_machine H N mreq s).0
        × (locked_entries H N (create_machine H N mreq s).1 ≡ locked_entries H N s)
  unfolding create_machine
  create_machine_locked mreq s taken =
      let out = prepare H N mreq s in
      let kept = (prepare-Frame H N mreq).at s in
      let w = waits mreq out.0 out.1 (ground (arith, kept)) in (w.0, w.1 ∙ kept)
