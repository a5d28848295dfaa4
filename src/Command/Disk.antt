-- ===== src/Command/Disk.antt =====
-- The calls of package os that cmd makes, on the files and directories of a machine. Any call may be
-- refused: the oracle says so by the number of the call, with the error's text and what a write has
-- left of the file by then. Directories that must be there first are a matter of the oracle.
use ukfaas.Prelude.{ℕ, ◌+◌, Bool, false, Option, none, some, [], ◌∷◌, ◌++◌}
use ukfaas.Prelude.Lists.{eqb, if◌then◌else◌}
use ukfaas.Prelude.Text.{Text, text, text_eq}
use ukfaas.Prelude.Map.{Map, load, store}
use ukfaas.Prelude.Exec.{Outcome, ok, err, Exec}

pub record Refusal : Type 0 where
  pub note : Text
  pub left : Option Text

abbrev pub Oracle : Type 0
Oracle = ℕ → Option Refusal

pub record File : Type 0 where
  pub content : Text
  pub mode : ℕ

pub record Disk : Type 0 where
  pub files : Map Text File
  pub dirs : Map Text ℕ
  pub calls : ℕ

ends_in_slash : Text → Bool
ends_in_slash [] = false
ends_in_slash (c ∷ []) = eqb c b'/'
ends_in_slash (c ∷ d ∷ s) = ends_in_slash (d ∷ s)

-- `path.Join` of two clean paths that are not empty; the first may end in a slash.
unfoldable pub join : Text → Text → Text
unfolding ends_in_slash
join a b = if ends_in_slash a then a ++ b else a ++ (text "/" ++ b)

abbrev pub asked : Disk → Disk
asked d = record d { calls = d.calls + 1 }

-- What `os.Stat` says: the error, if there is one, and whether it is that there is no such file.
pub data Stat : Type 0 where
  present absent : Stat
  unknown : Text → Stat

unfoldable pub known : Text → Disk → Stat
known path d = elim (load path d.files) [
  | some f ↦ present
  | none ↦ elim (load path d.dirs) [ some mode ↦ present | none ↦ absent ]
]

unfoldable pub stat_or : Option Refusal → Stat → Stat
stat_or none s = s
stat_or (some r) s = unknown r.note

unfoldable pub stat : Oracle → Text → Exec Disk Stat
unfolding known stat_or
stat refuses path d = (ok (stat_or (refuses d.calls) (known path d)), asked d)

-- The mode of a file that is there stays.
unfoldable pub rewritten : Text → ℕ → Option File → File
rewritten content mode none = record { content = content; mode = mode }
rewritten content mode (some f) = record f { content = content }

unfoldable pub put_file : Text → Text → ℕ → Disk → Disk
unfolding rewritten
put_file path content mode d = record d {
  files = store path (rewritten content mode (load path d.files)) d.files;
}

unfoldable pub left_file : Text → ℕ → Option Text → Disk → Disk
unfolding put_file
left_file path mode none d = d
left_file path mode (some content) d = put_file path content mode d

unfoldable pub write_or : Text → Text → ℕ → Option Refusal → Exec Disk (Unit {0})
unfolding put_file left_file
write_or path content mode none d = (ok tt, put_file path content mode (asked d))
write_or path content mode (some r) d = (err r.note, left_file path mode r.left (asked d))

-- `os.WriteFile`, and `os.Create` with an empty content.
unfoldable pub write_file : Oracle → Text → Text → ℕ → Exec Disk (Unit {0})
unfolding write_or
write_file refuses path content mode d = write_or path content mode (refuses d.calls) d

unfoldable pub make_or : Text → ℕ → Option Refusal → Exec Disk (Unit {0})
make_or path mode (some r) d = (err r.note, asked d)
make_or path mode none d = (
  ok tt,
  record (asked d) {
    dirs = elim (load path d.dirs) [ some m ↦ d.dirs | none ↦ store path mode d.dirs ];
  },
)

-- `os.MkdirAll`, as far as the last directory of the path.
unfoldable pub mkdir_all : Oracle → Text → ℕ → Exec Disk (Unit {0})
unfolding make_or
mkdir_all refuses path mode d = make_or path mode (refuses d.calls) d

unfoldable pub open_or : Text → Option Refusal → Option File → Outcome Text
open_or path (some r) file = err r.note
open_or path none none = err (text "open " ++ (path ++ text ": no such file or directory"))
open_or path none (some f) = ok f.content

-- `os.Open`, with what can be read.
unfoldable pub open_file : Oracle → Text → Exec Disk Text
unfolding open_or
open_file refuses path d = (open_or path (refuses d.calls) (load path d.files), asked d)
