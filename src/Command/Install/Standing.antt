-- ===== src/Command/Install/Standing.antt =====
-- What is on the disk when an install has come as far as systemd.
use ukfaas.Prelude.{ℕ, ◌≡◌, refl, Option, none, some, ◌++◌, arith}
use ukfaas.Prelude.Text.{Text, text, text_eq}
use ukfaas.Prelude.Map.{load, load-store}
use ukfaas.Prelude.Exec.{Outcome, ok, err, panic, blocked, Exec, wrap, after, ◌>>=◌}
use ukfaas.Command.Disk.{
  Oracle, Refusal, Disk, Stat, present, absent, unknown, known, stat_or, stat, put_file, rewritten,
  left_file, write_or, write_file, open_file, asked, join,
}
use ukfaas.Command.Install.{
  System, made_if, make_file, make_basic_auth_files, cp, stat_error, bin_exists, noted,
  install_files, secrets,
}
use ukfaas.Command.Install.Keeping.{Keeps, Keeps-bind, Keeps-lift, Keeps-noted}

-- Something is at the path.
abbrev pub Exists : Text → Disk → Type 0
Exists path d = known path d ≡ present

stat_or-present : (r : Option Refusal) (s : Stat) → stat_or r s ≡ present → s ≡ present
unfolding stat_or
stat_or-present none s e = e
stat_or-present (some r) s e = cc

module _ (path : Text) where
  put_file-Exists :
      (other content : Text) (mode : ℕ) (d : Disk)
      → Exists path d
      → Exists path (put_file other content mode d)
  unfolding put_file known
  put_file-Exists other content mode d h =
      ground (arith, load-store path other (rewritten content mode (load other d.files)) d.files)

  write_or-Exists :
      (other content : Text) (mode : ℕ) (r : Option Refusal) (d : Disk)
      → Exists path d
      → Exists path (write_or other content mode r d).1
  unfolding write_or left_file known
  write_or-Exists other content mode none d h = put_file-Exists other content mode (asked d) h
  write_or-Exists other content mode (some r) d h = left r.left
    where
      left : (o : Option Text) → Exists path (left_file other mode o (asked d))
      left none = h
      left (some c) = put_file-Exists other c mode (asked d) h

  write_file-Exists :
      (refuses : Oracle) (other content : Text) (mode : ℕ)
      → Keeps (Exists path) (write_file refuses other content mode)
  unfolding write_file
  write_file-Exists refuses other content mode = record {
    at = λ d. write_or-Exists other content mode (refuses d.calls) d;
  }

  stat-Exists : (refuses : Oracle) (other : Text) → Keeps (Exists path) (stat refuses other)
  unfolding stat known
  stat-Exists refuses other = record { at = λ d h. h }

  open_file-Exists :
      (refuses : Oracle) (other : Text) → Keeps (Exists path) (open_file refuses other)
  unfolding open_file known
  open_file-Exists refuses other = record { at = λ d h. h }

  made_if-Exists :
      (sys : System) (other content : Text) (s : Stat)
      → Keeps (Exists path) (made_if sys other content s)
  unfolding made_if
  made_if-Exists sys other content present = Keeps-lift (ok tt)
  made_if-Exists sys other content absent = write_file-Exists sys.refuses other content _
  made_if-Exists sys other content (unknown x) = Keeps-lift (err x)

  ruleset standing_rules = (
    Keeps-bind, Keeps-lift, Keeps-noted, stat-Exists, open_file-Exists, write_file-Exists,
    made_if-Exists,
  )

  cp-Exists : (sys : System) (source dest : Text) → Keeps (Exists path) (cp sys source dest)
  unfolding cp
  cp-Exists sys source dest = search standing_rules depth 8

  make_file-Exists :
      (sys : System) (other content : Text) → Keeps (Exists path) (make_file sys other content)
  unfolding make_file
  make_file-Exists sys other content = search standing_rules depth 8

  bin_exists-Exists :
      (sys : System) (folder name : Text) → Keeps (Exists path) (bin_exists sys folder name)
  unfolding bin_exists
  bin_exists-Exists sys folder name = search standing_rules depth 8

-- If `m` returns without an error, `P` holds of the disk that it leaves.
pub record Gives {ℓ κ} {A : Type ℓ} (P : Disk → Type κ) (m : Exec Disk A) : Type (ℓ ⊔ κ) where
  pub at : (d : Disk) (a : A) → (m d).0 ≡ ok a → P (m d).1

module _ {ℓ κ μ} {A : Type ℓ} {B : Type μ} {P : Disk → Type κ} (m : Exec Disk A)
    (f : A → Exec Disk B) where
  Gives-last : ((a : A) → Gives P (f a)) → Gives P (m >>= f)
  Gives-last hf = record { at = λ d b. from (m d).0 (m d).1 b }
    where
      from : (r : Outcome A) (d : Disk) (b : B) → (after r f d).0 ≡ ok b → P (after r f d).1
      from (ok a) d b e = (hf a).at d b e
      from (err x) d b e = cc
      from panic d b e = cc
      from blocked d b e = cc

  Gives-first : Gives P m → ((a : A) → Keeps P (f a)) → Gives P (m >>= f)
  Gives-first hm hf = record { at = λ d b. from (m d).0 (m d).1 b (hm.at d) }
    where
      from :
          (r : Outcome A) (d : Disk) (b : B)
          → ((a : A) → r ≡ ok a → P d)
          → (after r f d).0 ≡ ok b
          → P (after r f d).1
      from (ok a) d b p e = (hf a).at d (p a refl)
      from (err x) d b p e = cc
      from panic d b p e = cc
      from blocked d b p e = cc

Gives-noted :
    {P : Disk → Type 0} (note : Text) (m : Exec Disk (Unit {0}))
    → Gives P m
    → Gives P (noted note m)
unfolding noted
Gives-noted {P} note m h = record { at = λ d u. from (m d).0 (m d).1 u (h.at d) }
  where
    from :
        (r : Outcome (Unit {0})) (d : Disk) (u : Unit {0})
        → ((a : Unit {0}) → r ≡ ok a → P d)
        → wrap (note ++ text ": ") r ≡ ok u
        → P d
    from (ok a) d u p e = p a refl
    from (err x) d u p e = cc
    from panic d u p e = cc
    from blocked d u p e = cc

written_or-Exists :
    (path content : Text) (mode : ℕ) (r : Option Refusal) (d : Disk)
    → (write_or path content mode r d).0 ≡ ok tt
    → Exists path (write_or path content mode r d).1
unfolding write_or put_file known
written_or-Exists path content mode none d e =
    ground (arith, load-store path path (rewritten content mode (load path d.files)) d.files)
written_or-Exists path content mode (some r) d e = cc

-- A file that has been made without an error is there.
made_if_ok :
    (sys : System) (path content : Text) (d : Disk) (r : Option Refusal) (s : Stat)
    → stat_or r (known path d) ≡ s
    → (made_if sys path content s (asked d)).0 ≡ ok tt
    → Exists path (made_if sys path content s (asked d)).1
unfolding made_if write_file known stat_or
made_if_ok sys path content d r present at e = stat_or-present r (known path d) at
made_if_ok sys path content d r absent at e =
    written_or-Exists path content _ (sys.refuses (asked d).calls) (asked d) e
made_if_ok sys path content d r (unknown x) at e = cc

make_file-Gives :
    (sys : System) (path content : Text) → Gives (Exists path) (make_file sys path content)
unfolding make_file stat
make_file-Gives sys path content = record {
  at = λ d u.
      made_if_ok sys path content d (sys.refuses d.calls)
        (stat_or (sys.refuses d.calls) (known path d)) refl;
}

stat_error_ok :
    (path : Text) (d : Disk) (r : Option Refusal) (s : Stat)
    → stat_or r (known path d) ≡ s
    → stat_error path s ≡ ok tt
    → Exists path d
unfolding stat_error
stat_error_ok path d r present at e = stat_or-present r (known path d) at
stat_error_ok path d r absent at e = cc
stat_error_ok path d r (unknown x) at e = cc

bin_exists-Gives :
    (sys : System) (folder name : Text)
    → Gives (Exists (join folder name)) (bin_exists sys folder name)
unfolding bin_exists stat known
bin_exists-Gives sys folder name = record {
  at = λ d u.
      stat_error_ok (join folder name) d (sys.refuses d.calls)
        (stat_or (sys.refuses d.calls) (known (join folder name) d)) refl;
}

abbrev pub password_file : Text
password_file = join secrets (text "basic-auth-password")

abbrev pub user_file : Text
user_file = join secrets (text "basic-auth-user")

abbrev pub program_file : Text
program_file = join (text "/usr/local/bin/") (text "ukfaasd")

ruleset giving_rules = (
  Gives-first, Gives-last, Gives-noted, make_file-Gives, bin_exists-Gives, Keeps-bind, cp-Exists,
  make_file-Exists, bin_exists-Exists,
)

module _ (sys : System) where
  pub install_files_password : Gives (Exists password_file) (install_files sys)
  unfolding install_files make_basic_auth_files
  install_files_password = search giving_rules depth 20

  pub install_files_user : Gives (Exists user_file) (install_files sys)
  unfolding install_files make_basic_auth_files
  install_files_user = search giving_rules depth 20

  pub install_files_program : Gives (Exists program_file) (install_files sys)
  unfolding install_files
  install_files_program = search giving_rules depth 20
