-- ===== src/Command/Install/Keeping.antt =====
-- What an install leaves alone on the disk.
use ukfaas.Prelude.{ℕ, ◌≡◌, ◌≢◌, refl, Option, none, some, arith, sym, subst, ◌∙◌}
use ukfaas.Prelude.Lists.{length}
use ukfaas.Prelude.Text.{Text, text, text_eq}
use ukfaas.Prelude.Map.{load, load-store_ne}
use ukfaas.Prelude.Exec.{Outcome, ok, err, panic, blocked, Exec, lift, after, ◌>>=◌}
use ukfaas.Prelude.Frame.{Frame, Frame-bind}
use ukfaas.Command.Disk.{
  Oracle, Refusal, File, Disk, Stat, present, absent, unknown, known, stat_or, stat, put_file,
  left_file, write_or, write_file, make_or, mkdir_all, open_file, asked,
}
use ukfaas.Command.Install.{
  System, Target, Action, perform_or, perform, made_unless, ensure_working_dir, made_if, make_file,
  make_basic_auth_files, cp, bin_exists, noted, install_files, install_services, run_install,
  ukfaas_wd, working_directory_permission,
}
use ukfaas.Command.Disk.{join}

-- `m` keeps what `P` says of the disk, whatever it returns.
pub record Keeps {ℓ κ} {A : Type ℓ} (P : Disk → Type κ) (m : Exec Disk A) : Type (ℓ ⊔ κ) where
  pub at : (d : Disk) → P d → P (m d).1

module _ {κ} {P : Disk → Type κ} where
  pub Keeps-lift {ℓ} : {A : Type ℓ} (r : Outcome A) → Keeps P (lift {S = Disk} r)
  Keeps-lift r = record { at = λ d h. h }

  pub Keeps-noted : (note : Text) (m : Exec Disk (Unit {0})) → Keeps P m → Keeps P (noted note m)
  unfolding noted
  Keeps-noted note m h = record { at = λ d p. h.at d p }

  pub Keeps-bind {ℓ μ} :
      {A : Type ℓ} {B : Type μ} (m : Exec Disk A) (f : A → Exec Disk B)
      → Keeps P m
      → ((a : A) → Keeps P (f a))
      → Keeps P (m >>= f)
  Keeps-bind {A} m f hm hf = record { at = λ d p. from (m d).0 (m d).1 (hm.at d p) }
    where
      from : (r : Outcome A) (d : Disk) → P d → P (after r f d).1
      from (ok a) d p = (hf a).at d p
      from (err e) d p = p
      from panic d p = p
      from blocked d p = p

-- A file of this content and mode is at the path.
abbrev pub Holds : Text → File → Disk → Type 0
Holds path f d = load path d.files ≡ some f

stat_or-absent : (r : Option Refusal) (s : Stat) → stat_or r s ≡ absent → s ≡ absent
unfolding stat_or
stat_or-absent none s e = e
stat_or-absent (some r) s e = cc

known-absent : (path : Text) (d : Disk) → known path d ≡ absent → load path d.files ≡ none
unfolding known
known-absent path d e = ground arith

module _ (path : Text) (f : File) where
  absent-ne :
      (other : Text) (d : Disk) (r : Option Refusal)
      → stat_or r (known other d) ≡ absent
      → Holds path f d
      → other ≢ path
  absent-ne other d r e h same =
      let nothing = known-absent other d (stat_or-absent r (known other d) e) in
      cc (rw same at nothing)

  put_file-Holds :
      (other content : Text) (mode : ℕ) (d : Disk)
      → other ≢ path
      → Holds path f d
      → Holds path f (put_file other content mode d)
  unfolding put_file
  put_file-Holds other content mode d ne h = load-store_ne path other _ d.files ne ∙ h

  write_or-Holds :
      (other content : Text) (mode : ℕ) (r : Option Refusal) (d : Disk)
      → other ≢ path
      → Holds path f d
      → Holds path f (write_or other content mode r d).1
  unfolding write_or left_file
  write_or-Holds other content mode none d ne h = put_file-Holds other content mode (asked d) ne h
  write_or-Holds other content mode (some r) d ne h = left_Holds r.left
    where
      left_Holds : (o : Option Text) → Holds path f (left_file other mode o (asked d))
      left_Holds none = h
      left_Holds (some c) = put_file-Holds other c mode (asked d) ne h

  write_file-Holds :
      (refuses : Oracle) (other content : Text) (mode : ℕ)
      → other ≢ path
      → Keeps (Holds path f) (write_file refuses other content mode)
  unfolding write_file
  write_file-Holds refuses other content mode ne = record {
    at = λ d. write_or-Holds other content mode (refuses d.calls) d ne;
  }

  stat-Holds : (refuses : Oracle) (other : Text) → Keeps (Holds path f) (stat refuses other)
  unfolding stat
  stat-Holds refuses other = record { at = λ d h. h }

  mkdir_all-Holds :
      (refuses : Oracle) (other : Text) (mode : ℕ)
      → Keeps (Holds path f) (mkdir_all refuses other mode)
  unfolding mkdir_all
  mkdir_all-Holds refuses other mode = record { at = λ d. made (refuses d.calls) d }
    where
      made :
          (r : Option Refusal) (d : Disk) → Holds path f d → Holds path f (make_or other mode r d).1
      made none d h = h
      made (some r) d h = h

  open_file-Holds :
      (refuses : Oracle) (other : Text) → Keeps (Holds path f) (open_file refuses other)
  unfolding open_file
  open_file-Holds refuses other = record { at = λ d h. h }

  -- A file is written only where there was none, so also not at the path itself.
  made_if-Holds :
      (sys : System) (other content : Text) (d : Disk) (s : Stat) (r : Option Refusal)
      → stat_or r (known other d) ≡ s
      → Holds path f d
      → Holds path f (made_if sys other content s (asked d)).1
  unfolding made_if
  made_if-Holds sys other content d present r e h = h
  made_if-Holds sys other content d absent r e h =
      (write_file-Holds sys.refuses other content working_directory_permission
          (absent-ne other d r e h)).at
        (asked d) h
  made_if-Holds sys other content d (unknown x) r e h = h

  make_file-Holds :
      (sys : System) (other content : Text) → Keeps (Holds path f) (make_file sys other content)
  unfolding make_file stat
  make_file-Holds sys other content = record {
    at = λ d.
        made_if-Holds sys other content d (stat_or (sys.refuses d.calls) (known other d))
          (sys.refuses d.calls) refl;
  }

  made_unless-Holds :
      (sys : System) (folder : Text) (mode : ℕ) (s : Stat)
      → Keeps (Holds path f) (made_unless sys folder mode s)
  unfolding made_unless
  made_unless-Holds sys folder mode present = Keeps-lift (ok tt)
  made_unless-Holds sys folder mode absent = mkdir_all-Holds sys.refuses folder mode
  made_unless-Holds sys folder mode (unknown x) = mkdir_all-Holds sys.refuses folder mode

  ruleset disk_rules = (
    Keeps-bind, Keeps-lift, Keeps-noted, stat-Holds, open_file-Holds, write_file-Holds,
    make_file-Holds, made_unless-Holds,
  )

  install_files-Holds :
      (sys : System)
      → join ukfaas_wd (text "docker-compose.yaml") ≢ path
      → join ukfaas_wd (text "prometheus.yml") ≢ path
      → join ukfaas_wd (text "resolv.conf") ≢ path
      → Keeps (Holds path f) (install_files sys)
  unfolding install_files ensure_working_dir make_basic_auth_files cp bin_exists
  install_files-Holds sys h1 h2 h3 = search disk_rules depth 14

perform-Frame : (sys : System) (a : Action) → Frame (λ (t : Target). t.disk) (perform sys a)
unfolding perform
perform-Frame sys a = record { at = λ t. kept (sys.systemd (length t.performed) a) t }
  where
    kept : (r : Outcome (Unit {0})) (t : Target) → (perform_or a r t).1.disk ≡ t.disk
    kept (ok u) t = refl
    kept (err e) t = refl
    kept panic t = refl
    kept blocked t = refl

pub install_services-Frame : (sys : System) → Frame (λ (t : Target). t.disk) (install_services sys)
unfolding install_services
install_services-Frame sys = search (Frame-bind, perform-Frame) depth 14

then_services :
    (sys : System) (r : Outcome (Unit {0})) (t : Target)
    → (after r (λ _. install_services sys) t).1.disk ≡ t.disk
then_services sys (ok u) t = (install_services-Frame sys).at t
then_services sys (err e) t = refl
then_services sys panic t = refl
then_services sys blocked t = refl

-- An install, also one that fails, whatever is refused and whatever a refused write leaves behind,
-- keeps every file that is there as it was, the three that it copies apart: in particular the
-- password and the user of an earlier install.
pub run_install-Holds :
    (sys : System) (t : Target) (path : Text) (f : File)
    → join ukfaas_wd (text "docker-compose.yaml") ≢ path
    → join ukfaas_wd (text "prometheus.yml") ≢ path
    → join ukfaas_wd (text "resolv.conf") ≢ path
    → load path t.disk.files ≡ some f
    → load path (run_install sys t).1.disk.files ≡ some f
unfolding run_install
run_install-Holds sys t path f h1 h2 h3 h =
    let (r, d) = install_files sys t.disk in
    let p : Disk → Type 0 = Holds path f in
    subst p (sym (then_services sys r (record t { disk = d })))
      ((install_files-Holds path f sys h1 h2 h3).at t.disk h)
