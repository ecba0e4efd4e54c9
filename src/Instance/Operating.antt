-- ===== src/Instance/Operating.antt =====
-- pkg/instance/service.go: `DeployInstance`, `Pause`, `Resume`, `Restart`, `Logs` and `FilestoreBackup`.
pub mod Laws
use im_manager.Base.{
  ℕ, String, ◌<>◌, Bool, true, false, ◌&&◌, Option, none, some, ◌==◌, string_eq, if◌then◌else◌,
}
use im_manager.Base.Dict.{Dict, get}
use im_manager.Base.Text.{trim_suffix, contains_text}
use im_manager.Errdef.{Error, Result, ok, err, errorf, new_bad_request, wrap}
use im_manager.Action.{Action, pure, lift, ◌>>=◌, ◌>>◌, continued}
use im_manager.Model.{Group, Database, DeploymentInstance}
use im_manager.Stack.{Stack, Stacks, find}
use im_manager.Database.Service.{blank}

-- What running a command gives: both outputs, and the error, if any.
pub record Output : Type 0 where
  pub log : String
  pub error_log : String
  pub failure : Option Error

-- The calls of the group service, of helmfile and its process, of Kubernetes, of the object stores and of
-- the repository. A group stands for its cluster. `perform_backup` streams to the key of the bucket.
pub record Machines (W : Type 0) : Type 1 where
  pub Command : Type 0
  pub Kubernetes : Type 0
  pub Streamer : Type 0
  pub bucket : String
  pub find_group : String → Action W Group
  pub restore_filestore_to_s3 : DeploymentInstance → Database → Action W (Unit {0})
  pub sync_command : String → DeploymentInstance → Group → ℕ → Dict String → Action W Command
  pub execute : Command → Group → W → Output × W
  pub save_deploy_log : DeploymentInstance → String → Action W (Unit {0})
  pub new_kubernetes_service : Group → Action W Kubernetes
  pub pause_instance : Kubernetes → DeploymentInstance → Action W (Unit {0})
  pub resume_instance : Kubernetes → DeploymentInstance → Action W (Unit {0})
  pub restart_instance : Kubernetes → DeploymentInstance → String → Stack → Action W (Unit {0})
  pub get_logs : Kubernetes → DeploymentInstance → String → Action W String
  pub find_decrypted_instance : ℕ → Action W DeploymentInstance
  pub streamer_for : DeploymentInstance → Group → Action W Streamer
  pub perform_backup : Streamer → String → String → Action W (Unit {0})
  pub record_backup : Database → Action W Database
  pub save_database : Database → Action W Database

-- `storageType` of pkg/instance/filestore.go.
unfoldable pub storage_type : DeploymentInstance → String
storage_type core = elim (get core.parameters "STORAGE_TYPE") [
  | none ↦ "minio"
  | some p ↦ if p.value == "" then "minio" else p.value
]

abbrev pub in_progress : String
in_progress = "another operation (install/upgrade/rollback) is in progress"

-- fmt.Sprintf("namespaces %q not found", …), of a namespace that needs no escapes.
abbrev pub no_namespace : Group → String
no_namespace group = "namespaces \"" <> (group.namespace <> "\" not found")

-- The name of a dump without its ending.
unfoldable pub stem : String → String
stem name = trim_suffix (trim_suffix (trim_suffix name ".sql.gz") ".pgc") ".tar.gz"

module _ {W : Type 0} (M : Machines W) where
  -- if storageType(instance) == "s3" && filestoreBackup != nil { … }
  unfoldable pub restore : DeploymentInstance → Option Database → Action W (Unit {0})
  restore instance none = pure tt
  restore instance (some filestore) =
      if storage_type instance == "s3"
      then M.restore_filestore_to_s3 instance filestore
      else pure tt

  -- What follows the process.
  unfoldable pub conclude : DeploymentInstance → Group → Output → Option Error → Action W (Unit {0})
  conclude instance group output none = M.save_deploy_log instance output.log
  conclude instance group output (some failure) =
      if contains_text output.error_log in_progress
      then pure tt
      else if contains_text output.error_log (no_namespace group)
      then lift (err (new_bad_request "namespace %q does not exist"))
      else lift (err (wrap "" failure))

  unfoldable pub deploy_instance :
      String → DeploymentInstance → ℕ → Dict String → Option Database → Action W (Unit {0})
  deploy_instance token instance ttl extra_env filestore = do
    group ← M.find_group instance.group_name
    restore instance filestore
    command ← M.sync_command token instance group ttl extra_env
    output ← λ w. let (o, w') = M.execute command group w in (ok o, w')
    conclude instance group output output.failure

  unfoldable pub connected : String → Action W M.Kubernetes
  connected group_name = do group ← M.find_group group_name; M.new_kubernetes_service group

  unfoldable pub pause : DeploymentInstance → Action W (Unit {0})
  pause instance = do ks ← connected instance.group_name; M.pause_instance ks instance

  unfoldable pub resume : DeploymentInstance → Action W (Unit {0})
  resume instance = do ks ← connected instance.group_name; M.resume_instance ks instance

  unfoldable pub restart : Stacks → DeploymentInstance → String → Action W (Unit {0})
  restart stacks instance type_selector = do
    ks ← connected instance.group_name
    stack ← lift (find stacks instance.stack_name)
    M.restart_instance ks instance type_selector stack

  unfoldable pub logs : DeploymentInstance → Group → String → Action W String
  logs instance group type_selector = do
    ks ← M.new_kubernetes_service group
    M.get_logs ks instance type_selector

  unfoldable pub backup_row : String → String → String → ℕ → Database
  backup_row group_name uri name user_id = record blank {
    name = name;
    group_name = group_name;
    url = uri;
    type = "fs";
    user_id = user_id;
  }

  unfoldable pub filestore_backup : DeploymentInstance → String → Database → Action W Database
  filestore_backup instance name database = do
    group ← M.find_group instance.group_name
    core ← M.find_decrypted_instance instance.id
    streamer ← M.streamer_for core group
    let key = instance.group_name <> ("/" <> (stem name <> "-fs.tar.gz"))
    M.perform_backup streamer M.bucket key
    filestore ← M.record_backup (
        backup_row instance.group_name ("s3://" <> (M.bucket <> ("/" <> key)))
          (stem name <> "-fs.tar.gz") database.user_id)
    M.save_database (record database { filestore_id = filestore.id })
