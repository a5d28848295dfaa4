-- ===== src/Machines/Create/Stuck.antt =====
-- Once a call has failed between `Lock` and `Unlock`, under every schedule of the others.
use ukfaas.Prelude.{ℕ, ◌≡◌, refl, ◌∙◌, true, Option, none, some, List, [], ◌∷◌, arith}
use ukfaas.Prelude.Lists.{set-All, get_elem?, All, get_elem?-All}
use ukfaas.Prelude.Text.{Text}
use ukfaas.Prelude.Exec.{Outcome, ok, err, panic, blocked}
use ukfaas.Network.Api.{NetworkController}
use ukfaas.Machines.Platform.{Machine, Host}
use ukfaas.Machines.{MachineRequest, Maps, get_function_machine}
use ukfaas.Machines.Create.{prepare, acquire}
use ukfaas.Machines.Create.Frames.{Store, locked_entries, prepare-Frame}
use ukfaas.Machines.Create.Callers.{
  Caller, cloning, after_search, starting, prepared, inside, leaving, launched, failed_inside,
  ended, Creating, after_prepare, after_acquire, advance, advance_at, step, run,
}

-- A call that has not got past the lock, or has returned.
abbrev pub IsOutside : Caller → Type 0
IsOutside (inside mreq p) = ⊥
IsOutside (leaving mreq l) = ⊥
IsOutside (launched mreq l) = ⊥
IsOutside _ = Unit

module _ (H : Host) (N : NetworkController) where
  -- Nobody can release the lock, and nobody has a machine to enter.
  abbrev pub IsStuck : Creating H N → Type 0
  IsStuck c = (c.machines.lock ≡ true) × All IsOutside c.callers

  Stays : Caller × Store H N → Store H N → Type 0
  Stays (g', s') s = IsOutside g' × (locked_entries H N s' ≡ locked_entries H N s)

  after_search-IsOutside : (maps : Maps) (o : Outcome Machine) → IsOutside (after_search H N maps o)
  unfolding after_search
  after_search-IsOutside maps (ok m) = tt
  after_search-IsOutside maps (err e) = tt
  after_search-IsOutside maps panic = tt
  after_search-IsOutside maps blocked = tt

  after_prepare-IsOutside :
      (mreq : MachineRequest) (o : Outcome (Machine × Text)) → IsOutside (after_prepare H N mreq o)
  unfolding after_prepare
  after_prepare-IsOutside mreq (ok p) = tt
  after_prepare-IsOutside mreq (err e) = tt
  after_prepare-IsOutside mreq panic = tt
  after_prepare-IsOutside mreq blocked = tt

  advance-Stays :
      (g : Caller) (s : Store H N) → s.lock ≡ true → IsOutside g → Stays (advance H N g s) s
  unfolding advance Stays acquire after_acquire
  advance-Stays (cloning service) s taken h =
      (after_search-IsOutside s.maps (get_function_machine H N service s).0, refl)
  advance-Stays (starting mreq) s taken h =
      (after_prepare-IsOutside mreq (prepare H N mreq s).0, (prepare-Frame H N mreq).at s)
  advance-Stays (prepared mreq p) s taken h = rw taken (tt, refl)
  advance-Stays (inside mreq p) s taken h = elim h [ ]
  advance-Stays (leaving mreq l) s taken h = elim h [ ]
  advance-Stays (launched mreq l) s taken h = elim h [ ]
  advance-Stays failed_inside s taken h = (tt, refl)
  advance-Stays ended s taken h = (tt, refl)

  abbrev Kept : Creating H N → Creating H N → Type 0
  Kept c c' = IsStuck c' × (locked_entries H N c'.machines ≡ locked_entries H N c.machines)

  advance_at-Kept :
      (i : ℕ) (c : Creating H N) (o : Option Caller)
      → get_elem? c.callers i ≡ o
      → IsStuck c
      → Kept c (advance_at H N i o c)
  unfolding advance_at Stays
  advance_at-Kept i c none e v = (v, refl)
  advance_at-Kept i c (some g) e v =
      let out = advance H N g c.machines in
      let (outside, same) =
        advance-Stays g c.machines v.0 (get_elem?-All IsOutside c.callers i v.1 e) in
      ((ground (arith, same, v.0), set-All IsOutside c.callers i out.0 v.1 outside), same)

  -- From a state in which the lock is held and every call stands before it, has failed behind it, or
  -- has returned, no schedule lets a call in: the lock stays held, and no entry of machines or of
  -- their networks changes.
  pub run-IsStuck :
      (schedule : List ℕ) (c : Creating H N)
      → IsStuck c
      → IsStuck (run H N schedule c)
        × (locked_entries H N (run H N schedule c).machines ≡ locked_entries H N c.machines)
  unfolding run step
  run-IsStuck [] c v = (v, refl)
  run-IsStuck (i ∷ schedule) c v =
      let (stuck, same) = advance_at-Kept i c (get_elem? c.callers i) refl v in
      let rest = run-IsStuck schedule (step H N i c) stuck in (rest.0, rest.1 ∙ same)
