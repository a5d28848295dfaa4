-- ===== src/Functions/Updating.antt =====
-- `UpdateFunction` on every branch.
use ukfaas.Prelude.{
  ◌≡◌, ◌≢◌, refl, subst, ap, sym, ◌∙◌, Bool, true, false, ◌⊎◌, inl, inr, none, some, ◌++◌, arith,
}
use ukfaas.Prelude.Lists.{Option-cases}
use ukfaas.Prelude.Text.{Text, text, text_eq}
use ukfaas.Prelude.Map.{Map, load, store, remove, load-remove_self, load-remove_ne}
use ukfaas.Prelude.Exec.{ok-injective, Outcome, ok, err, after as after_outcome}
use ukfaas.Functions.{
  FunctionDeployment, Registry, FunctionMetaData, zero_time, get_function, delete_function,
}
use ukfaas.Functions.Add.{add_function}
use ukfaas.Functions.Update.{keep_package, replace_package, update_function}
use ukfaas.Functions.Add.Fetching.{Store, entries}
use ukfaas.Functions.Adding.{IsAdded, Added, add_function_lem}

-- The last line of `replace_package`.
abbrev pub with_true {ℓ κ} : {A : Type ℓ} {S : Type κ} → Outcome A × S → Outcome (A × Bool) × S
with_true (r, s) = after_outcome {B = _} r (λ a t. (ok (a, true), t)) s

module _ (R : Registry) (req : FunctionDeployment) (s : Store R) where
  -- The store without the function of the request.
  abbrev pub deleted : Store R
  deleted = record s { function_meta_data_map = remove req.service s.function_meta_data_map }

  -- What an update to another image promises: the request is deployed anew, or the update fails
  -- and the function is gone.
  abbrev pub Replaced : Outcome (FunctionMetaData R × Bool) × Store R → Type 0
  Replaced out =
      ((meta : FunctionMetaData R) × (out.0 ≡ ok (meta, true)) × IsAdded R req meta s out.1)
      ⊎ (((x : FunctionMetaData R × Bool) → out.0 ≢ ok x)
          × (load req.service out.1.function_meta_data_map ≡ none))

  gone :
      (s' : Store R)
      → entries R s' ≡ entries R deleted
      → load req.service s'.function_meta_data_map ≡ none
  gone s' kept =
      ap (λ (x : Map Text (FunctionMetaData R) × Map Text R.Package). load req.service x.0) kept
      ∙ load-remove_self req.service s.function_meta_data_map

  replaced :
      (r : Outcome (FunctionMetaData R) × Store R) → Added R req deleted r → Replaced (with_true r)
  replaced (ok meta, s') (inl (_, e, a)) = inl (
    meta,
    refl,
    record {
      deployed = ap (λ (m : FunctionMetaData R). m.deployment) (ok-injective e) ∙ a.deployed;
      stored = a.stored ∙ ap some (sym (ok-injective e));
      others = λ service h.
          a.others service h ∙ load-remove_ne service req.service s.function_meta_data_map h;
      digest = a.digest;
      directory = ap (λ (m : FunctionMetaData R). m.storage_dir) (ok-injective e) ∙ a.directory;
      image = a.image ∙ ap (λ (m : FunctionMetaData R). some m.pack) (sym (ok-injective e));
      other_images = a.other_images;
    },
  )
  replaced (ok meta, s') (inr (never, kept)) = absurd (never meta refl)
  replaced (r, s') (inl (meta, e, a)) = ground (arith, e)
  replaced (r, s') (inr (never, kept)) = inr (λ x. ground arith, gone s' kept)

  -- The entry after an update with the image that the function has.
  abbrev pub kept : FunctionMetaData R → FunctionMetaData R
  kept old = record {
    created_at = zero_time;
    deployment = req;
    pack = old.pack;
    storage_dir = old.storage_dir;
  }

  -- A service that the store does not have: an error, and nothing changes.
  pub update_function_unknown :
      load req.service s.function_meta_data_map ≡ none
      → update_function R req s ≡ (err (text "function " ++ (req.service ++ text " not found")), s)
  unfolding update_function get_function
  update_function_unknown e = rw e

  -- The same image: the request replaces the deployment and the package stays, but the time of
  -- creation is lost. No other function changes, and nothing is asked of the outside.
  pub update_function_same :
      (old : FunctionMetaData R)
      → load req.service s.function_meta_data_map ≡ some old
      → old.deployment.image ≡ req.image
      → let new : FunctionMetaData R = record {
        created_at = zero_time;
        deployment = req;
        pack = old.pack;
        storage_dir = old.storage_dir;
      } in
        update_function R req s ≡ (
          ok (new, false),
          record s { function_meta_data_map = store req.service new s.function_meta_data_map },
        )
  unfolding update_function get_function keep_package
  update_function_same old e same = ground (arith, e)

  pub update_function-replace :
      (old : FunctionMetaData R)
      → load req.service s.function_meta_data_map ≡ some old
      → old.deployment.image ≢ req.image
      → update_function R req s ≡ with_true (add_function R req deleted)
  unfolding update_function get_function replace_package delete_function
  update_function-replace old e differ = ground (arith, e)

  -- Another image: either the request is deployed anew, or the update fails and the function is
  -- gone, since it was deleted first.
  pub update_function_other :
      (old : FunctionMetaData R)
      → load req.service s.function_meta_data_map ≡ some old
      → old.deployment.image ≢ req.image
      → Replaced (update_function R req s)
  update_function_other old e differ =
      subst Replaced (sym (update_function-replace old e differ))
        (replaced (add_function R req deleted) (add_function_lem R req deleted))

  -- What the three cases of an update promise: an unknown service is an error and nothing changes;
  -- with the image that the function has, the package stays and the rest is replaced, the time of
  -- creation by none, and no other function changes; with another image the function is deployed
  -- anew, or the update fails and the function is gone.
  pub update_function_lem :
      ((load req.service s.function_meta_data_map ≡ none)
        × (update_function R req s
            ≡ (err (text "function " ++ (req.service ++ text " not found")), s)))
      ⊎ ((old : FunctionMetaData R) × (load req.service s.function_meta_data_map ≡ some old)
          × (((old.deployment.image ≡ req.image)
                × (update_function R req s ≡ (
                  ok (kept old, false),
                  record s {
                    function_meta_data_map = store req.service (kept old) s.function_meta_data_map;
                  },
                )))
              ⊎ ((old.deployment.image ≢ req.image) × Replaced (update_function R req s))))
  update_function_lem = elim (Option-cases (load req.service s.function_meta_data_map)) [
    | inl e ↦ inl (e, update_function_unknown e)
    | inr (old, e) ↦ elim (text_eq.dec old.deployment.image req.image) [
      | yes same ↦ inr (old, e, inl (same, update_function_same old e same))
      | no differ ↦ inr (old, e, inr (differ, update_function_other old e differ))
    ]
  ]
