-- ===== src/Database/Handler/Changes.antt =====
-- pkg/database/handler.go: the requests that change something, all together.
use im_manager.Base.{ℕ, ◌≡◌, refl, true, some, string_eq}
use im_manager.Errdef.{ok}
use im_manager.Model.{User, Database, DeploymentInstance}
use im_manager.Authorize.{can_access, can_access_group, can_unlock}
use im_manager.Stack.{Stacks}
use im_manager.Database.Tables.{Tables}
use im_manager.Database.Service
use im_manager.Database.Service.{Files, blank}
use im_manager.Database.Handler.{Others, access}
use im_manager.Database.Handler.Records
use im_manager.Database.Handler.Records.{
  CopyDatabaseRequest, LockDatabaseRequest, UpdateDatabaseRequest, CreateExternalDatabaseRequest,
  header_of, max_external_download_expiration_seconds, unlock_held,
}
use im_manager.Database.Handler.Instances
use im_manager.Database.Handler.Instances.{SaveAsRequest, database_id_of}
use im_manager.Database.Handler.Permission.{
  Change, uploading, saving_as, saving, copying, locking, unlocking, deleting, updating,
  creating_download, MayChange, MayAdd, access-eq-ok,
}
use im_manager.Web.{
  Request, Outcome, went_on, Handling, Reply, chained, served, reply, get_path_parameter,
  parse_uint_32, value_of, ◌>>=◌,
}
use im_manager.Web.Laws.{chained-keeps, chained-check-keeps, get_path_parameter-eq-went_on}

module _ {W : Type 0} (T : Tables W) (S : Files W) (O : Others W) (stacks : Stacks) where
  -- The handler of a request, of whose reply only the status is kept.
  unfoldable pub handled : Change → Handling W ℕ
  handled (uploading r) = do a ← Records.upload T S O r; reply a.status
  handled (saving_as r) = do a ← Instances.save_as T S O stacks r; reply a.status
  handled (saving r) = do a ← Instances.save T S O stacks r; reply a.status
  handled (copying r) = do a ← Records.copy T S O r; reply a.status
  handled (locking r) = do a ← Records.lock T S O r; reply a.status
  handled (unlocking r) = do a ← Records.unlock T S O r; reply a.status
  handled (deleting r) = do a ← Records.delete T S O r; reply a.status
  handled (updating r) = do a ← Records.update T S O r; reply a.status
  handled (creating_download r) = do a ← Records.create_external_download T S O r; reply a.status

  -- The user in the context may save the database of the instance, in its group.
  abbrev pub MaySaveAs : Request SaveAsRequest → W → Type 0
  MaySaveAs r w =
      (user : User) × (id : ℕ) × (instance : DeploymentInstance) × (r.user ≡ some user)
      × (parse_uint_32 (value_of r.params "instanceId") ≡ some id)
      × (O.find_decrypted_deployment_instance_by_id id w ≡ (ok instance, w))
      × (can_access_group user instance.group_name ≡ true)

  -- The user in the context may access the database that the instance names.
  abbrev pub MaySave : Request (Unit {0}) → W → Type 0
  MaySave r w =
      (user : User) × (id : ℕ) × (instance : DeploymentInstance) × (d : Database) × (r.user
        ≡ some user)
      × (parse_uint_32 (value_of r.params "instanceId") ≡ some id)
      × (O.find_decrypted_deployment_instance_by_id id w ≡ (ok instance, w))
      × (Service.find_by_identifier T S (database_id_of instance.parameters) w ≡ (ok d, w))
      × (can_access user d ≡ true)

  abbrev pub MayCopy : Request CopyDatabaseRequest → Type 0
  MayCopy r =
      (request : CopyDatabaseRequest) × (r.should_bind ≡ ok request) × MayAdd T S r request.group

  unfoldable pub MayMake : Change → W → Type 0
  MayMake (uploading r) w = MayAdd T S r (header_of r "X-Upload-Group")
  MayMake (saving_as r) w = MaySaveAs r w
  MayMake (saving r) w = MaySave r w
  MayMake (copying r) w = MayCopy r
  MayMake (locking r) w = MayChange T S can_access r w
  MayMake (unlocking r) w = MayChange T S can_unlock r w
  MayMake (deleting r) w = MayChange T S can_access r w
  MayMake (updating r) w = MayChange T S can_access r w
  MayMake (creating_download r) w = MayChange T S can_access r w

  pub replied-keeps :
      {A : Type 0} (w : W) (m : Outcome (Reply A) × W)
      → m.1 ≡ w
      → (chained m (λ a. reply a.status)).1 ≡ w
  replied-keeps w m kept = chained-keeps w m _ kept (λ _ _. refl)

  -- What follows the test of the database that is found is not reached without the right.
  pub found-keeps :
      {A B : Type 0} (r : Request B) (w : W) (id : ℕ) (d : Database)
      (rest : Unit {0} → Handling W A)
      → ¬ MayChange T S can_access r w
      → get_path_parameter r "id" w ≡ (went_on id, w)
      → Service.find_by_id T S id w ≡ (ok d, w)
      → (chained (served (access r d, w)) rest).1 ≡ w
  found-keeps r w id d rest denied named found =
      chained-check-keeps w (access r d) rest (λ u passed.
        let (user, there, may) = access-eq-ok r d u passed in
        absurd (
          denied
            (user, id, d, there, get_path_parameter-eq-went_on r "id" w w id named, found, may)))

  pub added-keeps :
      {A B : Type 0} (r : Request B) (w : W) (d : Database) (rest : Unit {0} → Handling W A)
      → ¬ MayAdd T S r d.group_name
      → (chained (served (access r d, w)) rest).1 ≡ w
  added-keeps r w d rest denied = chained-check-keeps w (access r d) rest (λ u passed.
      let (user, there, may) = access-eq-ok r d u passed in
      absurd (denied (user, d, there, refl, may)))
