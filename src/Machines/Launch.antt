-- ===== src/Machines/Launch.antt =====
-- `NewMachine` and `CloneMachine`: the requests with which they call `createMachine`.
use ukfaas.Prelude.{ℕ, Option, none, some, ◌++◌}
use ukfaas.Prelude.Text.{Text, text}
use ukfaas.Prelude.Exec.{Exec, ◌>>=◌, fail, gets}
use ukfaas.Network.Api.{NetworkController}
use ukfaas.Functions.{Registry, FunctionMetaData}
use ukfaas.Machines.Platform.{Machine, Host}
use ukfaas.Machines.{MachineRequest, Maps, read_map, MachineStore, get_function_machine}
use ukfaas.Machines.Create.{create_machine}

module _ (R : Registry) (H : Host) (N : NetworkController) where
  abbrev pointer : Option ℕ → Option (Option ℕ)
  pointer none = none
  pointer (some a) = some (some a)

  -- `NewMachine`
  unfoldable pub new_machine : FunctionMetaData R → Exec (MachineStore H N) (Unit {0})
  new_machine function = elim (R.as_target function.pack) [
    | none ↦ fail (text "package does not convert to target")
    | some targ ↦
        let req = function.deployment in
        create_machine H N (record {
          service = req.service;
          image = req.image;
          namespace = req.namespace;
          architecture = targ.architecture;
          platform = targ.platform;
          kernel = targ.format ++ (text "://" ++ req.image);
          kernel_path = targ.kernel;
          storage_path = H.join function.storage_dir (text "unikraft/fs0");
          annotations = pointer req.annotations;
          labels = pointer req.labels;
        })
  ]

-- The request of `CloneMachine`: both pointers are to the annotations of the machine found.
unfoldable pub clone_request : Maps → Machine → MachineRequest
clone_request maps m = record {
  service = read_map maps m.labels (text "ukfaas.io/service");
  image = read_map maps m.labels (text "ukfaas.io/image");
  namespace = read_map maps m.labels (text "ukfaas.io/namespace");
  architecture = m.architecture;
  platform = m.platform;
  kernel = m.kernel;
  kernel_path = m.kernel_path;
  storage_path = read_map maps m.annotations (text "ukfaas.io/filesystem");
  annotations = some m.annotations;
  labels = some m.annotations;
}

module _ (H : Host) (N : NetworkController) where
  -- `CloneMachine`
  unfoldable pub clone_machine : Text → Exec (MachineStore H N) (Unit {0})
  clone_machine service = do
    m ← get_function_machine H N service
    maps ← gets (λ s. s.maps)
    create_machine H N (clone_request maps m)
