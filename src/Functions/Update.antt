-- ===== src/Functions/Update.antt =====
-- `UpdateFunction`.
use ukfaas.Prelude.{Bool, true, false}
use ukfaas.Prelude.Lists.{if◌then◌else◌}
use ukfaas.Prelude.Text.{◌==◌, text_eq}
use ukfaas.Prelude.Map.{store}
use ukfaas.Prelude.Exec.{Exec, ◌>>=◌, ◌>>◌, pure, modify}
use ukfaas.Functions.{
  FunctionDeployment, Registry, FunctionMetaData, FunctionStore, delete_function, get_function,
  zero_time,
}
use ukfaas.Functions.Add.{add_function}

module _ (R : Registry) where
  -- `UpdateFunction` with the image that the function has: the package is kept, and the time of
  -- creation is not copied.
  unfoldable pub keep_package :
      FunctionDeployment
      → (FunctionMetaData R)
      → Exec (FunctionStore R) ((FunctionMetaData R) × Bool)
  keep_package req meta = do
    let updated : (FunctionMetaData R) = record {
      created_at = zero_time;
      deployment = req;
      pack = meta.pack;
      storage_dir = meta.storage_dir;
    }
    modify λ s. record s {
      function_meta_data_map = store req.service updated s.function_meta_data_map;
    }
    pure (updated, false)

  -- With another image: the function is deleted, and added again.
  unfoldable pub replace_package :
      FunctionDeployment → Exec (FunctionStore R) ((FunctionMetaData R) × Bool)
  replace_package req = do
    delete_function R req.service
    added ← add_function R req
    pure (added, true)

  unfoldable pub update_function :
      FunctionDeployment → Exec (FunctionStore R) ((FunctionMetaData R) × Bool)
  update_function req = do
    meta ← get_function R req.service
    if meta.deployment.image == req.image then keep_package req meta else replace_package req
