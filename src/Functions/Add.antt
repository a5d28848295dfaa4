-- ===== src/Functions/Add.antt =====
-- `AddFunction`.
pub mod Fetching
use ukfaas.Prelude.{ℕ, ◌≡◌, Bool, true, false, not, Option, none, some, List, [], ◌∷◌, ◌++◌}
use ukfaas.Prelude.Lists.{if◌then◌else◌}
use ukfaas.Prelude.Text.{Text, text, ◌==◌, text_eq}
use ukfaas.Prelude.Map.{Map, load, store, remove}
use ukfaas.Prelude.Exec.{
  Outcome, ok, err, panic, blocked, Exec, ◌>>=◌, ◌>>◌, pure, fail, lift, gets, modify, wrap,
}
use ukfaas.Functions.{
  FunctionDeployment, Manifest, Target, Registry, FunctionMetaData, FunctionStore, outer, wrapped,
  function_exists, delete_function, get_function, zero_time,
}

abbrev pub oci_directory : Text
oci_directory = text "/tmp/kraftkit/oci"

module _ (R : Registry) where
  open R use {Package, World}

  -- `fmt.Sprintf("%s:%s", unikernelName, unikernelVersion) == ref.Name()`; a manifest without the
  -- two annotations is skipped.
  named : Text → Option Text → Option Text → Bool
  named ref none version = false
  named ref (some name) none = false
  named ref (some name) (some version) = (name ++ (text ":" ++ version)) == ref

  unfoldable pub matches : Text → Manifest → Bool
  unfolding named
  matches ref m =
      named ref (load (text "org.unikraft.image.name") m.annotations)
        (load (text "org.unikraft.image.version") m.annotations)

  -- `ocipack` and the digest of `descriptor`, as the loop over the manifests leaves them.
  abbrev Found : Type 0
  Found = Option Package × Text

  -- The loop ends at the first package made without an error; else it goes on with what it got.
  settle : Option Text → Found → Exec (FunctionStore R) Found → Exec (FunctionStore R) Found
  settle none found rest s = (ok found, s)
  settle (some e) found rest s = rest s

  try_manifest :
      Text → Manifest → (Found → Exec (FunctionStore R) Found) → Exec (FunctionStore R) Found
  unfolding settle
  try_manifest ref m rest s =
      let (p, e, w) = R.new_package ref m s.world in
      settle e (p, m.config_digest) (rest (p, m.config_digest)) (record s { world = w })

  find_package : Text → List Manifest → Found → Exec (FunctionStore R) Found
  unfolding try_manifest matches
  find_package ref [] found = pure found
  find_package ref (m ∷ ms) found =
      let rest = find_package ref ms in
      if matches ref m then try_manifest ref m rest else rest found

  pub require_package : Option Package → Exec (FunctionStore R) Package
  require_package none = fail (text "no manifests found")
  require_package (some p) = pure p

  -- `descriptor.Digest.String()[4:]`, which panics on a shorter text.
  drop_four : Text → Outcome Text
  drop_four (_ ∷ _ ∷ _ ∷ _ ∷ digest) = ok digest
  drop_four _ = panic

  -- The deferred removal of the directory reads the `err` of the enclosing block, which is nil
  -- here: the errors of the detection and of the pull are other variables.
  pull_package : Package → Text → Exec (FunctionStore R) Package
  pull_package p storage_dir = do
    outer R (R.mkdir_all storage_dir)
    modify (λ s. record s { dirs = storage_dir ∷ s.dirs })
    platform ← outer R R.detect
    outer R (R.pull p storage_dir platform)
    pure p

  pulled : Option Package → Package → Text → Exec (FunctionStore R) Package
  unfolding pull_package
  pulled (some old) p storage_dir = pure old
  pulled none p storage_dir = pull_package p storage_dir

  unfoldable pub require_target : Option Target → Exec (FunctionStore R) (Unit {0})
  require_target none = fail (text "package does not convert to target")
  require_target (some t) = pure tt

  -- `AddFunction` up to the entries that it makes: the package, the digest and the directory.
  unfoldable pub fetch : FunctionDeployment → Exec (FunctionStore R) (Package × Text × Text)
  unfolding find_package require_package drop_four pulled require_target
  fetch req = do
    ref ← lift (wrap (text "name parse failed with: ") (R.parse_reference req.image))
    manifests ← wrapped R (text "list manifests failed with: ") R.list_manifests
    found ← find_package ref manifests (none, [])
    ocipack ← require_package found.0
    digest ← lift (drop_four found.1)
    image ← gets (λ s. load digest s.image_store)
    ocipack' ← pulled image ocipack (R.join oci_directory digest)
    require_target (R.as_target ocipack')
    pure (ocipack', digest, R.join oci_directory digest)

  -- The last lines of `AddFunction`.
  unfoldable pub record_function :
      FunctionDeployment → Package × Text × Text → Exec (FunctionStore R) (FunctionMetaData R)
  record_function req (ocipack, digest, storage_dir) = do
    created ← outer R (λ w. (ok (R.now w).0, (R.now w).1))
    let meta : (FunctionMetaData R) = record {
      created_at = created;
      deployment = req;
      pack = ocipack;
      storage_dir = storage_dir;
    }
    modify λ s. record s {
      function_meta_data_map = store req.service meta s.function_meta_data_map;
      image_store = store digest ocipack s.image_store;
    }
    pure meta

  unfoldable pub add_function : FunctionDeployment → Exec (FunctionStore R) (FunctionMetaData R)
  add_function req = do
    exists ← gets (function_exists R req.service)
    if exists
        then fail (text "service " ++ (req.service ++ text " already exists"))
        else do fetched ← fetch req; record_function req fetched
