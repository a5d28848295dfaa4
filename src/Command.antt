-- ===== src/Command.antt =====
-- cmd: the program's commands. root.go and main.go stand here; what cobra does with a command line is
-- the parameter `execute`, which is given the names of the registered commands.
pub mod Disk
pub mod Install
pub mod Up
pub mod Provider
use ukfaas.Prelude.{ℕ, Bool, true, false, Option, none, some, List, [], ◌∷◌, ◌++◌}
use ukfaas.Prelude.Lists.{if◌then◌else◌}
use ukfaas.Prelude.Text.{Text, text, ◌==◌, text_eq}
use ukfaas.Prelude.Exec.{Outcome, ok, err, panic, blocked}

-- The variables `Version` and `GitCommit`, which the linker sets.
pub record Build : Type 0 where
  pub version : Text
  pub git_commit : Text

unfoldable pub get_version : Build → Text
get_version b = if b.version == [] then text "dirty" else b.version

unfoldable pub get_git_commit : Build → Text
get_git_commit b = if b.git_commit == [] then text "dev" else b.git_commit

-- What `printVersion` prints.
unfoldable pub print_version : Build → Text
unfolding get_version get_git_commit
print_version b =
    text "uk-faas version: "
    ++ (get_version b ++ (text "\tcommit: " ++ (get_git_commit b ++ text "\n")))

-- The commands that the `init` functions of root.go and test.go add.
abbrev pub commands : List Text
commands = text "version" ∷ text "install" ∷ text "up" ∷ text "provider" ∷ text "test" ∷ []

exit_code : Outcome (Unit {0}) → ℕ
exit_code (ok u) = 0
exit_code (err e) = 1
exit_code panic = 2
exit_code blocked = 2

-- The exit status of `main`: in a container it asks for a command of its own.
unfoldable pub main : (List Text → List Text → Outcome (Unit {0})) → Option Text → List Text → ℕ
unfolding exit_code
main execute none args = exit_code (execute commands args)
main execute (some container) args = exit_code (execute commands (text "collect" ∷ []))
