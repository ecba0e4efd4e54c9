-- ===== src/Deployment.antt =====
-- pkg/deployment/service.go: the deployment of all instances, in order, with their seed.
pub mod Order
pub mod Seed
pub mod Updating
pub mod Dumping
use im_manager.Base.{
  ℕ, zero, suc, String, ◌<>◌, Bool, true, false, not, Option, none, some, List, [], ◌∷◌, map, ◌==◌,
  string_eq, nat_eq, if◌then◌else◌,
}
use im_manager.Base.Dict.{Dict, get, put}
use im_manager.Base.Decimal.{parse_uint}
use im_manager.Errdef
use im_manager.Errdef.{Error, Result, ok, err, errorf, nil_pointer, wrap}
use im_manager.Action.{Action, pure, lift, ◌>>=◌, ◌>>◌, on_failure}
use im_manager.Model.{DeploymentInstance, Deployment, Database}
use im_manager.Graph.{GraphLib}
use im_manager.Stack.{Stacks}
use im_manager.Instance.Links.{ordered_instances}

-- The calls that the service makes of the others (`instanceService`, `databaseService`,
-- `tokenService`). Of an external download only the UUID, printed, is read.
pub record Services (W : Type 0) : Type 0 where
  pub refresh_access_token : String → Action W String
  pub find_database : ℕ → Action W Database
  pub create_external_download : ℕ → ℕ → Action W String
  pub deploy_instance :
      String → DeploymentInstance → ℕ → Dict String → Option Database → Action W (Unit {0})
  pub destroy_instance : DeploymentInstance → Action W (Unit {0})
  pub find_decrypted_deployment : ℕ → Action W Deployment
  pub save_deployment : Deployment → Action W (Unit {0})

unfoldable pub find_instance_by_id : List DeploymentInstance → ℕ → Result DeploymentInstance
find_instance_by_id [] id = err (errorf "instance %d not found in deployment")
find_instance_by_id (instance ∷ instances) id =
    if instance.id == id then ok instance else find_instance_by_id instances id

-- Either `continue`, or the id.
unfoldable pub database_id_of : DeploymentInstance → Option ℕ
database_id_of instance = elim (get instance.parameters "DATABASE_ID") [
  | none ↦ none
  | some param ↦ elim (parse_uint param.value) [
    | none ↦ none
    | some zero ↦ none
    | some (suc n) ↦ some (suc n)
  ]
]

unfoldable pub database_id_from_instances : List (Option DeploymentInstance) → Result (Option ℕ)
database_id_from_instances [] = ok none
database_id_from_instances (none ∷ instances) = err nil_pointer
database_id_from_instances (some instance ∷ instances) = elim (database_id_of instance) [
  | some id ↦ ok (some id)
  | none ↦ database_id_from_instances instances
]

abbrev pub seed_download_ttl_seconds : ℕ
seed_download_ttl_seconds = 1800

-- A pointer to an instance, read.
unfoldable pub read : {A : Type 0} → Option A → Result A
read none = err nil_pointer
read (some a) = ok a

module _ {W : Type 0} (S : Services W) (hostname : String) where
  -- A link for the download, or the error with a text before it.
  unfoldable pub seed_link : ℕ → String → Action W String
  seed_link id message =
      on_failure (S.create_external_download id seed_download_ttl_seconds) (wrap message)

  unfoldable pub filestore_seed : Database → Dict String → Action W (Dict String × Option Database)
  filestore_seed db env = if db.filestore_id == 0 then pure (env, none) else (do
    uuid ← seed_link db.filestore_id "failed to create seed download link for filestore %d: "
    filestore ← on_failure (S.find_database db.filestore_id) (wrap "filestore %d not found: ")
    pure (
      put env "FILESTORE_DOWNLOAD_URL" (hostname <> ("/databases/external/" <> uuid)),
      some filestore,
    ))

  unfoldable pub database_seed : Option ℕ → Action W (Dict String × Option Database)
  database_seed none = pure ([], none)
  database_seed (some id) = do
    db ← on_failure (S.find_database id) (wrap "database %d not found: ")
    uuid ← seed_link db.id "failed to create seed download link for database %d: "
    filestore_seed db
        (put [] "DATABASE_DOWNLOAD_URL" (hostname <> ("/databases/external/" <> uuid)))

  unfoldable pub build_seed :
      List (Option DeploymentInstance) → Action W (Dict String × Option Database)
  build_seed instances = do id ← lift (database_id_from_instances instances); database_seed id

  unfoldable pub deploy_instance :
      String
      → Option DeploymentInstance
      → ℕ
      → List (Option DeploymentInstance)
      → Action W (Unit {0})
  deploy_instance token instance ttl instances = do
    (env, filestore) ← on_failure (build_seed instances) (wrap "failed to build seed environment: ")
    i ← lift (read instance)
    S.deploy_instance token i ttl env filestore

  -- One round of the loop of `DeployDeployment`: returns the token for the next.
  unfoldable pub deploy_next :
      ℕ → List (Option DeploymentInstance) → String → Option DeploymentInstance → Action W String
  deploy_next ttl instances token instance = do
    token' ← S.refresh_access_token token
    on_failure (deploy_instance token' instance ttl instances)
        (wrap "failed to deploy instance(%s) %q: ")
    pure token'

  unfoldable pub deploy_each :
      ℕ
      → List (Option DeploymentInstance)
      → String
      → List (Option DeploymentInstance)
      → Action W (Unit {0})
  deploy_each ttl instances token [] = pure tt
  deploy_each ttl instances token (instance ∷ rest) = do
    token' ← deploy_next ttl instances token instance
    deploy_each ttl instances token' rest

  module _ (G : GraphLib) (stacks : Stacks) where
    unfoldable pub deploy_deployment : String → Deployment → Action W (Unit {0})
    deploy_deployment token deployment = do
      instances ← lift (ordered_instances G stacks deployment)
      deploy_each deployment.ttl instances token instances

    -- What follows `if ttlChanged`.
    unfoldable pub redeploy : String → Deployment → Bool → Action W (Unit {0})
    redeploy token deployment false = pure tt
    redeploy token deployment true =
        on_failure (deploy_deployment token deployment)
          (λ _. errorf "failed to redeploy instances: %v")

    unfoldable pub update_deployment : String → ℕ → ℕ → String → Action W Deployment
    update_deployment token id ttl description = do
      deployment ← S.find_decrypted_deployment id
      let updated = record deployment { ttl = ttl; description = description }
      S.save_deployment updated
      redeploy token updated (not (deployment.ttl == ttl))
      pure updated

  unfoldable pub reset : String → DeploymentInstance → ℕ → Action W (Unit {0})
  reset token instance ttl = do
    S.destroy_instance instance
    deployment ← S.find_decrypted_deployment instance.deployment_id
    deploy_instance token (some instance) ttl (map some deployment.instances)
