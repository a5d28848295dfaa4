-- ===== src/Command/Install/Ordering.antt =====
-- In what order an install does its work, and what is there when systemd is asked.
use ukfaas.Prelude.{◌≡◌, ◌≢◌, ◌⊎◌, refl, List, [], ◌∷◌, ◌++◌, inl, inr, sym, subst, ◌∙◌, ap}
use mathlib.Core.List.{append-nil, append_assoc}
use ukfaas.Prelude.Lists.{length}
use ukfaas.Prelude.Text.{text, text_eq}
use ukfaas.Prelude.Exec.{Outcome, ok, err, panic, blocked, Exec, after, ◌>>◌}
use ukfaas.Command.Disk.{Disk}
use ukfaas.Command.Install.{
  System, Target, Action, install_unit, daemon_reload, enable, start, perform_or, perform,
  install_files, install_services, run_install, secrets, ukfaas_wd, ukfaas_provider_wd,
}
use ukfaas.Command.Install.Keeping.{install_services-Frame}
use ukfaas.Command.Install.Standing.{
  Exists, password_file, user_file, program_file, install_files_password, install_files_user,
  install_files_program,
}

-- The actions of an install, in order.
abbrev pub actions : List Action
actions =
    install_unit (text "ukfaasd-provider")
      ((text "Cwd", ukfaas_provider_wd) ∷ (text "SecretMountPath", secrets) ∷ [])
    ∷ install_unit (text "ukfaasd") ((text "Cwd", ukfaas_wd) ∷ [])
    ∷ daemon_reload
    ∷ enable (text "ukfaasd-provider")
    ∷ enable (text "ukfaasd")
    ∷ start (text "ukfaasd-provider")
    ∷ start (text "ukfaasd")
    ∷ []

perform_each : System → Action → List Action → Exec Target (Unit {0})
perform_each sys a [] = perform sys a
perform_each sys a (b ∷ bs) = do perform sys a; perform_each sys b bs

-- The first of the actions `todo` have been done, and the rest not: all if there was no error, and
-- less if there was.
abbrev pub Performed : List Action → Target → Outcome (Unit {0}) × Target → Type 0
Performed todo t r =
    (finished : List Action) × (rest : List Action) × (finished ++ rest ≡ todo)
    × (r.1.performed ≡ t.performed ++ finished)
    × (((r.0 ≡ ok tt) × (rest ≡ [])) ⊎ ((r.0 ≢ ok tt) × (rest ≢ [])))

one_more :
    (sys : System) (a b : Action) (bs : List Action) (t : Target) (r : Outcome (Unit {0}))
    → ((t' : Target) → Performed (b ∷ bs) t' (perform_each sys b bs t'))
    → Performed
        (a ∷ b ∷ bs)
        t
        (after (perform_or a r t).0 (λ _. perform_each sys b bs) (perform_or a r t).1)
unfolding perform_or
one_more sys a b bs t (ok u) ih =
    let (finished, rest, split, recorded, end) =
      ih (record t { performed = t.performed ++ a ∷ [] }) in
    (
      a ∷ finished,
      rest,
      ap (λ cs. a ∷ cs) split,
      recorded ∙ append_assoc t.performed (a ∷ []) finished,
      end,
    )
one_more sys a b bs t (err e) ih =
    ([], a ∷ b ∷ bs, refl, sym (append-nil t.performed), inr ((λ f. cc), λ f. cc))
one_more sys a b bs t panic ih =
    ([], a ∷ b ∷ bs, refl, sym (append-nil t.performed), inr ((λ f. cc), λ f. cc))
one_more sys a b bs t blocked ih =
    ([], a ∷ b ∷ bs, refl, sym (append-nil t.performed), inr ((λ f. cc), λ f. cc))

last_one :
    (a : Action) (t : Target) (r : Outcome (Unit {0})) → Performed (a ∷ []) t (perform_or a r t)
unfolding perform_or
last_one a t (ok u) = (a ∷ [], [], refl, refl, inl (refl, refl))
last_one a t (err e) = ([], a ∷ [], refl, sym (append-nil t.performed), inr ((λ f. cc), λ f. cc))
last_one a t panic = ([], a ∷ [], refl, sym (append-nil t.performed), inr ((λ f. cc), λ f. cc))
last_one a t blocked = ([], a ∷ [], refl, sym (append-nil t.performed), inr ((λ f. cc), λ f. cc))

perform_each-Performed :
    (sys : System) (a : Action) (bs : List Action) (t : Target)
    → Performed (a ∷ bs) t (perform_each sys a bs t)
unfolding perform_each perform
perform_each-Performed sys a [] t = last_one a t (sys.systemd (length t.performed) a)
perform_each-Performed sys a (b ∷ bs) t =
    one_more sys a b bs t (sys.systemd (length t.performed) a) (perform_each-Performed sys b bs)

install_services-Performed :
    (sys : System) (t : Target) → Performed actions t (install_services sys t)
unfolding install_services perform_each
install_services-Performed sys t = perform_each-Performed sys _ _ t

-- The password, the user and the program are where the services look for them.
abbrev pub Ready : Disk → Type 0
Ready d = Exists password_file d × Exists user_file d × Exists program_file d

-- What an install from `t` comes to.
abbrev pub Installed : Target → Outcome (Unit {0}) × Target → Type 0
Installed t r = Performed actions t r × ((r.1.performed ≡ t.performed) ⊎ Ready r.1.disk)

Installed-failed :
    (t t' : Target) (r : Outcome (Unit {0}))
    → t'.performed ≡ t.performed
    → r ≢ ok tt
    → Installed t (r, t')
Installed-failed t t' r same h =
    (([], actions, refl, same ∙ sym (append-nil t.performed), inr (h, λ f. cc)), inl same)

Installed-files :
    (sys : System) (t : Target) (r : Outcome (Unit {0})) (d : Disk)
    → (r ≡ ok tt → Ready d)
    → Installed t (after r (λ _. install_services sys) (record t { disk = d }))
Installed-files sys t (ok u) d h =
    let t' : Target = record t { disk = d } in
    (
      install_services-Performed sys t',
      inr (subst Ready (sym ((install_services-Frame sys).at t')) (h refl)),
    )
Installed-files sys t (err e) d h =
    Installed-failed t (record t { disk = d }) (err e) refl (λ f. cc)
Installed-files sys t panic d h = Installed-failed t (record t { disk = d }) panic refl (λ f. cc)
Installed-files sys t blocked d h =
    Installed-failed t (record t { disk = d }) blocked refl (λ f. cc)

-- An install does a first part of its actions on systemd, in order: all of them if it returns no
-- error, and not all if it does. It does none before something is at the paths of the password, the
-- user and the program.
pub run_install-Installed : (sys : System) (t : Target) → Installed t (run_install sys t)
unfolding run_install
run_install-Installed sys t =
    let (r, d) = install_files sys t.disk in
    Installed-files sys t r d (λ e. (
      (install_files_password sys).at t.disk tt e,
      (install_files_user sys).at t.disk tt e,
      (install_files_program sys).at t.disk tt e,
    ))
