-- ===== src/Functions/Adding.antt =====
-- `AddFunction`: what it records, and that a failure records nothing.
use ukfaas.Prelude.{◌≡◌, ◌≢◌, refl, ap, subst, ◌∙◌, ◌⊎◌, inl, inr, some, ◌++◌, arith}
use ukfaas.Prelude.Lists.{Bool-cases}
use ukfaas.Prelude.Text.{Text, text, text_eq}
use ukfaas.Prelude.Map.{Map, load, load-store_self, load-store_ne}
use ukfaas.Prelude.Exec.{
  ok-injective, pure, Outcome, ok, err, panic, blocked, after as after_outcome,
}
use ukfaas.Functions.{FunctionDeployment, Registry, FunctionMetaData, function_exists}
use ukfaas.Prelude.Ensures.{Ensures, Ensures-bind}
use ukfaas.Functions.Add.{oci_directory, fetch, record_function, add_function}
use ukfaas.Functions.Add.Fetching.{Store, entries, fetch-Frame}

module _ (R : Registry) where
  -- `AddFunction` has recorded `meta` for the service of the request and its package under the digest
  -- that names its directory, and no entry of another service or digest has changed.
  pub record IsAdded (req : FunctionDeployment) (meta : FunctionMetaData R) (before after : Store R)
      : Type 0 where
    pub deployed : meta.deployment ≡ req
    pub stored : load req.service after.function_meta_data_map ≡ some meta
    pub others :
        (service : Text)
        → req.service ≢ service
        → load service after.function_meta_data_map ≡ load service before.function_meta_data_map
    pub digest : Text
    pub directory : meta.storage_dir ≡ R.join oci_directory digest
    pub image : load digest after.image_store ≡ some meta.pack
    pub other_images :
        (other : Text)
        → digest ≢ other
        → load other after.image_store ≡ load other before.image_store

  -- The directory of what has been fetched is that of its digest.
  abbrev IsPlaced : R.Package × Text × Text → Type 0
  IsPlaced (p, digest, dir) = dir ≡ R.join oci_directory digest

  placed :
      (p : R.Package) (digest : Text)
      → Ensures {S = Store R} IsPlaced (pure (p, digest, R.join oci_directory digest))
  placed p digest = record {
    at = λ s x e.
        subst IsPlaced (ok-injective {a = (p, digest, R.join oci_directory digest)} e) refl;
  }

  fetch-IsPlaced : (req : FunctionDeployment) → Ensures IsPlaced (fetch R req)
  unfolding fetch
  fetch-IsPlaced req = search (Ensures-bind, placed) depth 16

  record_function-IsAdded :
      (req : FunctionDeployment) (fetched : R.Package × Text × Text) (s : Store R)
      → IsPlaced fetched
      → (meta : FunctionMetaData R) × ((record_function R req fetched s).0 ≡ ok meta)
        × IsAdded req meta s (record_function R req fetched s).1
  unfolding record_function
  record_function-IsAdded req (p, digest, dir) s placed_at =
      let meta : FunctionMetaData R = record {
        created_at = (R.now s.world).0;
        deployment = req;
        pack = p;
        storage_dir = dir;
      } in
      (
        meta,
        refl,
        record {
          deployed = refl;
          stored = load-store_self req.service meta s.function_meta_data_map;
          others = λ service h. load-store_ne service req.service meta s.function_meta_data_map h;
          digest = digest;
          directory = placed_at;
          image = load-store_self digest p s.image_store;
          other_images = λ other h. load-store_ne other digest p s.image_store h;
        },
      )

  -- What an outcome of `AddFunction` promises.
  abbrev pub Added : FunctionDeployment → Store R → Outcome (FunctionMetaData R) × Store R → Type 0
  Added req s r =
      ((meta : FunctionMetaData R) × (r.0 ≡ ok meta) × IsAdded req meta s r.1)
      ⊎ (((meta : FunctionMetaData R) → r.0 ≢ ok meta) × (entries R r.1 ≡ entries R s))

  after_fetch :
      (req : FunctionDeployment) (s s' : Store R) (r : Outcome (R.Package × Text × Text))
      → entries R s' ≡ entries R s
      → ((x : R.Package × Text × Text) → r ≡ ok x → IsPlaced x)
      → Added req s (after_outcome r (record_function R req) s')
  after_fetch req s s' (ok fetched) kept at =
      let (meta, e, a) = record_function-IsAdded req fetched s' (at fetched refl) in
      inl (
        meta,
        e,
        record {
          deployed = a.deployed;
          stored = a.stored;
          others = λ service h.
              a.others service h
              ∙ ap (λ (x : Map Text (FunctionMetaData R) × Map Text R.Package). load service x.0)
                  kept;
          digest = a.digest;
          directory = a.directory;
          image = a.image;
          other_images = λ other h.
              a.other_images other h
              ∙ ap (λ (x : Map Text (FunctionMetaData R) × Map Text R.Package). load other x.1)
                  kept;
        },
      )
  after_fetch req s s' (err e) kept at = inr (λ meta e. cc, kept)
  after_fetch req s s' panic kept at = inr (λ meta e. cc, kept)
  after_fetch req s s' blocked kept at = inr (λ meta e. cc, kept)

  -- A service that the store has is refused, and nothing at all changes.
  pub add_function_twice :
      (req : FunctionDeployment) (s : Store R) (old : FunctionMetaData R)
      → load req.service s.function_meta_data_map ≡ some old
      → add_function R req s ≡ (err (text "service " ++ (req.service ++ text " already exists")), s)
  unfolding add_function function_exists
  add_function_twice req s old e = ground (arith, e)

  -- Either `AddFunction` returns a function and records it for its service, with its package under the
  -- digest that names its directory, and changes no other entry of either map; or it fails, and no
  -- entry of either map changes.
  pub add_function_lem :
      (req : FunctionDeployment) (s : Store R) → Added req s (add_function R req s)
  unfolding add_function
  add_function_lem req s = elim (Bool-cases (function_exists R req.service s)) [
    | inl e ↦ rw e (inr (λ meta e. cc, refl))
    | inr e ↦ rw e (
        after_fetch req s (fetch R req s).1 (fetch R req s).0 ((fetch-Frame R req).at s)
          ((fetch-IsPlaced req).at s))
  ]
