-- ===== src/Functions/Targets.antt =====
-- Every package that the function store keeps converts to a target, so that a machine can be made.
use ukfaas.Prelude.{
  ◌≡◌, ◌≢◌, refl, subst, ap, sym, Bool, inl, inr, Option, none, some, List, [], ◌∷◌, arith,
}
use ukfaas.Prelude.Lists.{Bool-cases, Option-cases}
use ukfaas.Prelude.Text.{Text, text_eq}
use ukfaas.Prelude.Map.{Map, load, store, remove, load-store, load-remove}
use ukfaas.Prelude.Exec.{
  ok-injective, Outcome, ok, err, panic, blocked, pure, ◌>>◌, after as after_outcome,
}
use ukfaas.Prelude.Ensures.{Ensures, Ensures-bind}
use ukfaas.Functions.{
  FunctionDeployment, Target, Registry, FunctionMetaData, delete_function, function_exists,
}
use ukfaas.Functions.Add.{require_target, fetch, record_function, add_function}
use ukfaas.Functions.Update.{update_function}
use ukfaas.Functions.Add.Fetching.{Store, fetch-Frame}
use ukfaas.Functions.Updating.{
  deleted, with_true, update_function_unknown, update_function_same, update_function-replace,
}

-- A call of the store that changes it.
pub data Call : Type 0 where
  adds updates : FunctionDeployment → Call
  deletes : Text → Call

module _ (R : Registry) where
  abbrev pub IsTarget : R.Package → Type 0
  IsTarget p = R.as_target p ≢ none

  -- The packages of all functions convert to targets.
  abbrev pub AllTargets : Map Text (FunctionMetaData R) → Type 0
  AllTargets m =
      (service : Text) (meta : FunctionMetaData R) → load service m ≡ some meta → IsTarget meta.pack

  abbrev pub HasTargets : Store R → Type 0
  HasTargets s = AllTargets s.function_meta_data_map

  required-IsTarget :
      (p : R.Package) (digest dir : Text) (t : Option Target)
      → R.as_target p ≡ t
      → Ensures
          (λ (f : R.Package × Text × Text). IsTarget f.0)
          (require_target R t >> pure {S = Store R} (p, digest, dir))
  unfolding require_target
  required-IsTarget p digest dir none e = record { at = λ s f h. cc }
  required-IsTarget p digest dir (some t) e = record {
    at = λ s f h.
        rw (← ap (λ (x : R.Package × Text × Text). x.0) (ok-injective h))
          (λ q. ground (arith, e, q));
  }

  fetch-IsTarget :
      (req : FunctionDeployment)
      → Ensures (λ (f : R.Package × Text × Text). IsTarget f.0) (fetch R req)
  unfolding fetch
  fetch-IsTarget req = search (Ensures-bind, required-IsTarget) depth 12

  store-AllTargets :
      (key : Text) (new : FunctionMetaData R) (m : Map Text (FunctionMetaData R))
      → IsTarget new.pack
      → AllTargets m
      → AllTargets (store key new m)
  store-AllTargets key new m good h service meta e =
      let l = load-store service key new m in
      elim (text_eq.dec key service) [
        | yes p ↦
            let same : new ≡ meta = ground (arith, l, e, p) in
            subst (λ (x : FunctionMetaData R). IsTarget x.pack) same good
        | no q ↦ h service meta (ground (arith, l, e))
      ]

  remove-AllTargets :
      (key : Text) (m : Map Text (FunctionMetaData R)) → AllTargets m → AllTargets (remove key m)
  remove-AllTargets key m h service meta e =
      h service meta (ground (arith, load-remove service key m, e))

  after_fetch :
      (req : FunctionDeployment) (m : Map Text (FunctionMetaData R))
      (r : Outcome (R.Package × Text × Text)) (s : Store R)
      → ((f : R.Package × Text × Text) → r ≡ ok f → IsTarget f.0)
      → HasTargets s
      → HasTargets (after_outcome r (record_function R req) s).1
  unfolding record_function
  after_fetch req m (ok f) s good h =
      store-AllTargets req.service _ s.function_meta_data_map (good f refl) h
  after_fetch req m (err e) s good h = h
  after_fetch req m panic s good h = h
  after_fetch req m blocked s good h = h

  pub add_function-HasTargets :
      (req : FunctionDeployment) (s : Store R) → HasTargets s → HasTargets (add_function R req s).1
  unfolding add_function
  add_function-HasTargets req s h = elim (Bool-cases (function_exists R req.service s)) [
    | inl e ↦ rw e h
    | inr e ↦ rw e (
        after_fetch req s.function_meta_data_map (fetch R req s).0 (fetch R req s).1
          ((fetch-IsTarget req).at s)
          (subst AllTargets
            (sym (
              ap (λ (x : Map Text (FunctionMetaData R) × Map Text R.Package). x.0)
                ((fetch-Frame R req).at s)))
            h))
  ]

  with_true-HasTargets :
      (r : Outcome (FunctionMetaData R) × Store R) → HasTargets r.1 → HasTargets (with_true r).1
  with_true-HasTargets (ok meta, s) h = h
  with_true-HasTargets (err e, s) h = h
  with_true-HasTargets (panic, s) h = h
  with_true-HasTargets (blocked, s) h = h

  pub update_function-HasTargets :
      (req : FunctionDeployment) (s : Store R)
      → HasTargets s
      → HasTargets (update_function R req s).1
  update_function-HasTargets req s h =
      elim (Option-cases (load req.service s.function_meta_data_map)) [
        | inl missing ↦
            subst (λ (r : Outcome (FunctionMetaData R × Bool) × Store R). HasTargets r.1)
              (sym (update_function_unknown R req s missing)) h
        | inr (old, found) ↦ elim (text_eq.dec old.deployment.image req.image) [
          | yes same ↦
              subst (λ (r : Outcome (FunctionMetaData R × Bool) × Store R). HasTargets r.1)
                (sym (update_function_same R req s old found same))
                (store-AllTargets req.service _ s.function_meta_data_map (h req.service old found)
                  h)
          | no differ ↦
              subst (λ (r : Outcome (FunctionMetaData R × Bool) × Store R). HasTargets r.1)
                (sym (update_function-replace R req s old found differ))
                (with_true-HasTargets _ (
                  add_function-HasTargets req (deleted R req s)
                    (remove-AllTargets req.service s.function_meta_data_map h)))
        ]
      ]

  abbrev pub apply : Store R → Call → Store R
  apply s (adds req) = (add_function R req s).1
  apply s (updates req) = (update_function R req s).1
  apply s (deletes service) = (delete_function R service s).1

  pub run : Store R → List Call → Store R
  run s [] = s
  run s (c ∷ cs) = run (apply s c) cs

  apply-HasTargets : (s : Store R) (c : Call) → HasTargets s → HasTargets (apply s c)
  unfolding delete_function
  apply-HasTargets s (adds req) h = add_function-HasTargets req s h
  apply-HasTargets s (updates req) h = update_function-HasTargets req s h
  apply-HasTargets s (deletes service) h = remove-AllTargets service s.function_meta_data_map h

  -- After any calls, failing or not, every function's package still converts to a target, if it did
  -- before.
  pub run-HasTargets : (s : Store R) (cs : List Call) → HasTargets s → HasTargets (run s cs)
  unfolding run
  run-HasTargets s [] h = h
  run-HasTargets s (c ∷ cs) h = run-HasTargets (apply s c) cs (apply-HasTargets s c h)
