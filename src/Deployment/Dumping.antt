-- ===== src/Deployment/Dumping.antt =====
-- pkg/deployment/service.go: `SaveAs` and `Save`, whose dump runs in the background. A function that is
-- started by `go` is returned beside the result: the world after it is the caller's to choose when.
use im_manager.Base.{ℕ, String, Bool, Option, none, some}
use im_manager.Errdef.{Result, ok, err}
use im_manager.Action.{Action, pure, ◌>>=◌}
use im_manager.Model.{Database, DeploymentInstance}
use im_manager.Stack.{Stack}

pub record FilestoreEvent : Type 0 where
  pub status : String
  pub database_id : ℕ
  pub database_name : String
  pub error : String

unfoldable pub new_filestore_event : Database → String → String → FilestoreEvent
new_filestore_event db status message = record {
  status = status;
  database_id = db.id;
  database_name = db.name;
  error = message;
}

abbrev pub Background : Type 0 → Type 0
Background W = W → W

-- The calls of the database service, of the instance service and of the publisher.
-- `filestore_backup` returns the record of the database as it leaves it.
pub record DumpCalls (W : Type 0) : Type 0 where
  pub create_database : ℕ → String → String → Action W Database
  pub dump : ℕ → Database → DeploymentInstance → Stack → String → Action W Database
  pub ensure_locked : Database → ℕ → ℕ → Action W (Database × Bool)
  pub save_locked : Database → DeploymentInstance → Stack → Bool → Action W Database
  pub filestore_backup : DeploymentInstance → String → Database → Action W (Unit {0})
  pub publish : ℕ → String → FilestoreEvent → W → W

module _ {W : Type 0} (C : DumpCalls W) where
  -- The event after the backup.
  unfoldable pub concluded : ℕ → Database → Result (Unit {0}) × W → W
  concluded user_id database (ok _, w) =
      C.publish user_id database.group_name (new_filestore_event database "success" "") w
  concluded user_id database (err e, w) =
      C.publish user_id database.group_name (new_filestore_event database "error" e.message) w

  unfoldable pub save_filestore : ℕ → Option DeploymentInstance → Database → Background W
  save_filestore user_id none database w = w
  save_filestore user_id (some core) database w = concluded user_id database (
      C.filestore_backup core database.name database
        (C.publish user_id database.group_name (new_filestore_event database "started" "") w))

  -- What follows a dump in the background: nothing, if it failed.
  unfoldable pub then_filestore : ℕ → Option DeploymentInstance → Result Database × W → W
  then_filestore user_id core (ok saved, w) = save_filestore user_id core saved w
  then_filestore user_id core (err e, w) = w

  unfoldable pub save_as :
      ℕ
      → DeploymentInstance
      → Stack
      → Option DeploymentInstance
      → String
      → String
      → Action W (Database × Background W)
  save_as user_id instance stack core name format = do
    created ← C.create_database user_id instance.group_name name
    pure
        (created, λ w. then_filestore user_id core (C.dump user_id created instance stack format w))

  unfoldable pub save :
      ℕ
      → Database
      → DeploymentInstance
      → Stack
      → Option DeploymentInstance
      → Action W (Background W)
  save user_id database instance stack core = do
    (locked, was_locked) ← C.ensure_locked database instance.id user_id
    pure
        (λ w. then_filestore locked.user_id core (C.save_locked locked instance stack was_locked w))
