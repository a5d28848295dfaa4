-- ===== src/Functions/Opening.antt =====
-- `NewFunctionStore`: the empty store, behind the two calls that connect it to containerd.
use ukfaas.Prelude.{[]}
use ukfaas.Prelude.Text.{text}
use ukfaas.Prelude.Exec.{Outcome, Exec, lift, pure, wrap, ◌>>◌}
use ukfaas.Functions.{Registry, FunctionStore}

module _ (R : Registry) where
  abbrev pub new_store : R.World → FunctionStore R
  new_store w = record { image_store = []; function_meta_data_map = []; dirs = []; world = w }

  -- `client` is `containerd.New` and `handle` `handler.NewContainerdWithClient`.
  unfoldable pub new_function_store {ℓ} :
      {S : Type ℓ} → Outcome (Unit {0}) → Outcome (Unit {0}) → R.World → Exec S (FunctionStore R)
  new_function_store client handle w = do
    lift client
    lift (wrap (text "handler initialisation failed with: ") handle)
    pure (new_store w)
