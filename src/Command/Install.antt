-- ===== src/Command/Install.antt =====
-- cmd/install.go, with the password files of cmd/up.go: the directories, files and services of the
-- program on a machine. systemd and the password generator are parameters.
pub mod Keeping
pub mod Ordering
pub mod Standing
use ukfaas.Prelude.{ℕ, Bool, true, false, Option, none, some, List, [], ◌∷◌, ◌++◌}
use ukfaas.Prelude.Lists.{if◌then◌else◌, length}
use ukfaas.Prelude.Text.{Text, text}
use ukfaas.Prelude.Map.{Map}
use ukfaas.Prelude.Exec.{
  Outcome, ok, err, panic, blocked, Exec, pure, fail, lift, wrap, after, ◌>>=◌, ◌>>◌,
}
use ukfaas.Command.Disk.{
  Oracle, Disk, Stat, present, absent, unknown, join, stat, write_file, mkdir_all, open_file,
}

-- 0644 and 0755
abbrev pub working_directory_permission : ℕ
working_directory_permission = 420

abbrev pub secret_dir_permission : ℕ
secret_dir_permission = 493

abbrev pub ukfaas_wd : Text
ukfaas_wd = text "/var/lib/ukfaasd"

abbrev pub ukfaas_provider_wd : Text
ukfaas_provider_wd = text "/var/lib/ukfaasd-provider"

-- A call of faasd's package systemd, with the settings of a unit.
pub data Action : Type 0 where
  install_unit : Text → Map Text Text → Action
  daemon_reload : Action
  enable start : Text → Action

-- `systemd` answers an action by the number of those before it; `generate` is `password.Generate`.
pub record System : Type 0 where
  pub refuses : Oracle
  pub systemd : ℕ → Action → Outcome (Unit {0})
  pub generate : ℕ → ℕ → ℕ → Bool → Bool → Outcome Text

-- The disk, and what systemd has done, in order.
pub record Target : Type 0 where
  pub disk : Disk
  pub performed : List Action

abbrev pub on_disk {ℓ} : {A : Type ℓ} → Exec Disk A → Exec Target A
on_disk m t = let (r, d) = m t.disk in (r, record t { disk = d })

-- `systemd` is asked, and has done the action if it returns no error.
unfoldable pub perform_or : Action → Outcome (Unit {0}) → Exec Target (Unit {0})
perform_or a (ok u) t = (ok tt, record t { performed = t.performed ++ a ∷ [] })
perform_or a (err e) t = (err e, t)
perform_or a panic t = (panic, t)
perform_or a blocked t = (blocked, t)

unfoldable pub perform : System → Action → Exec Target (Unit {0})
unfolding perform_or
perform sys a t = perform_or a (sys.systemd (length t.performed) a) t

unfoldable pub made_unless : System → Text → ℕ → Stat → Exec Disk (Unit {0})
made_unless sys folder mode present = pure tt
made_unless sys folder mode absent = mkdir_all sys.refuses folder mode
made_unless sys folder mode (unknown e) = mkdir_all sys.refuses folder mode

unfoldable pub ensure_working_dir : System → Text → Exec Disk (Unit {0})
unfolding made_unless
ensure_working_dir sys folder = do
  s ← stat sys.refuses folder
  made_unless sys folder working_directory_permission s

-- Nothing calls this one.
unfoldable pub ensure_secrets_dir : System → Text → Exec Disk (Unit {0})
unfolding made_unless
ensure_secrets_dir sys folder = do
  s ← stat sys.refuses folder
  made_unless sys folder secret_dir_permission s

unfoldable pub made_if : System → Text → Text → Stat → Exec Disk (Unit {0})
made_if sys path contents present = pure tt
made_if sys path contents absent = write_file sys.refuses path contents working_directory_permission
made_if sys path contents (unknown e) = fail e

unfoldable pub make_file : System → Text → Text → Exec Disk (Unit {0})
unfolding made_if
make_file sys path contents = do s ← stat sys.refuses path; made_if sys path contents s

unfoldable pub make_basic_auth_files : System → Text → Exec Disk (Unit {0})
unfolding make_file
make_basic_auth_files sys wd = do
  auth_password ← lift (sys.generate 63 10 0 false true)
  make_file sys (join wd (text "basic-auth-password")) auth_password
  make_file sys (join wd (text "basic-auth-user")) (text "admin")

-- 0666, from which the umask takes.
abbrev pub create_permission : ℕ
create_permission = 438

-- `os.Create` empties the file that is there, and `io.Copy` writes it.
unfoldable pub cp : System → Text → Text → Exec Disk (Unit {0})
cp sys source dest_folder = do
  content ← open_file sys.refuses source
  write_file sys.refuses (join dest_folder source) [] create_permission
  write_file sys.refuses (join dest_folder source) content create_permission

unfoldable pub stat_error : Text → Stat → Outcome (Unit {0})
stat_error path present = ok tt
stat_error path _ =
    err (text "unable to stat " ++ (path ++ text ", install this binary before continuing"))

unfoldable pub bin_exists : System → Text → Text → Exec Disk (Unit {0})
unfolding stat_error
bin_exists sys folder name = do
  s ← stat sys.refuses (join folder name)
  lift (stat_error (join folder name) s)

abbrev pub secrets : Text
secrets = join ukfaas_wd (text "secrets")

-- `errors.Wrap`
unfoldable pub noted : Text → Exec Disk (Unit {0}) → Exec Disk (Unit {0})
noted note m d = let (r, d') = m d in (wrap (note ++ text ": ") r, d')

-- The part of `runInstall` up to the check of the binary.
unfoldable pub install_files : System → Exec Disk (Unit {0})
unfolding ensure_working_dir make_basic_auth_files cp bin_exists noted
install_files sys = do
  ensure_working_dir sys secrets
  ensure_working_dir sys ukfaas_provider_wd
  noted (text "cannot create basic-auth-* files") (make_basic_auth_files sys secrets)
  cp sys (text "docker-compose.yaml") ukfaas_wd
  cp sys (text "prometheus.yml") ukfaas_wd
  cp sys (text "resolv.conf") ukfaas_wd
  bin_exists sys (text "/usr/local/bin/") (text "ukfaasd")

-- The part behind it.
unfoldable pub install_services : System → Exec Target (Unit {0})
unfolding perform
install_services sys = do
  perform sys (
      install_unit (text "ukfaasd-provider")
        ((text "Cwd", ukfaas_provider_wd) ∷ (text "SecretMountPath", secrets) ∷ []))
  perform sys (install_unit (text "ukfaasd") ((text "Cwd", ukfaas_wd) ∷ []))
  perform sys daemon_reload
  perform sys (enable (text "ukfaasd-provider"))
  perform sys (enable (text "ukfaasd"))
  perform sys (start (text "ukfaasd-provider"))
  perform sys (start (text "ukfaasd"))

unfoldable pub run_install : System → Exec Target (Unit {0})
unfolding install_files install_services
run_install sys = do on_disk (install_files sys); install_services sys
