-- ===== src/Instance/Repository.antt =====
-- pkg/instance/repository.go, over the calls that it makes of gorm and of the slug library.
use im_manager.Base.{
  ℕ, String, ◌<>◌, ◌||◌, Option, none, some, List, [], ◌∷◌, ◌==◌, nat_eq, if◌then◌else◌,
}
use im_manager.Base.Dict.{Dict, get, put}
use im_manager.Errdef.{Error, Result, ok, err, errorf, new_not_found, new_duplicated, nil_pointer}
use im_manager.Action.{Action, pure, ◌>>=◌}
use im_manager.Model.{
  Database, DeploymentInstance, DeploymentInstanceParameter, DeploymentInstanceParameters,
  Deployment,
}
use im_manager.Stack.{Stack}
use im_manager.Database.Tables.{Answer, done, record_not_found, duplicated_key, failed}
use im_manager.Database.Repository.{stored, plainly}
use im_manager.Instance.Encryption.{Ciphers, encrypt_parameters, decrypt_parameters}
use im_manager.Instance.Listing.{Published}

-- The statements.
pub record InstanceTables (W : Type 0) : Type 1 where
  pub transaction : {A : Type 0} → (W → Answer A × W) → W → Answer A × W
  pub delete_locks_of_instance : ℕ → W → Answer (Unit {0}) × W
  pub delete_instance : ℕ → W → Answer (Unit {0}) × W
  pub delete_deployment : Deployment → W → Answer (Unit {0}) × W
  pub save_deployment : Deployment → W → Answer (Unit {0}) × W
  pub first_deployment : ℕ → W → Answer Deployment × W
  pub first_instance : ℕ → W → Answer DeploymentInstance × W
  pub save_instance : DeploymentInstance → W → Answer (Unit {0}) × W
  pub update_deploy_log : ℕ → String → W → Answer (Unit {0}) × W
  pub public_instances : W → Answer (List Published) × W
  pub all_deployments : W → Answer (List Deployment) × W
  pub save_database : Database → W → Answer Database × W
  pub make_slug : String → String

-- `missing` for gorm.ErrRecordNotFound, `other` for any other error.
unfoldable pub unless_found : {A : Type 0} → Error → Error → Answer A → Result A
unless_found missing other (done a) = ok a
unless_found missing other record_not_found = err missing
unless_found missing other duplicated_key = err other
unless_found missing other (failed m) = err other

-- `taken` for gorm.ErrDuplicatedKey, `other` for any other error.
unfoldable pub unless_taken : {A : Type 0} → Error → Error → Answer A → Result A
unless_taken taken other (done a) = ok a
unless_taken taken other record_not_found = err other
unless_taken taken other duplicated_key = err taken
unless_taken taken other (failed m) = err other

-- The length of the key.
unfoldable pub new_repository : ℕ → Result (Unit {0})
new_repository length =
    if length == 16 || (length == 24 || length == 32)
    then ok tt
    else err (errorf "INSTANCE_PARAMETER_ENCRYPTION_KEY must be 16, 24, or 32 bytes, got %d")

-- `BeforeSave` and `AfterFind` of pkg/model/instance.go, which turn the parameters into rows and back.
unfoldable pub before_save :
    ℕ → String → DeploymentInstanceParameters → List DeploymentInstanceParameter
before_save id stack_name [] = []
before_save id stack_name ((name, p) ∷ parameters) =
    record p { parameter_name = name; deployment_instance_id = id; stack_name = stack_name }
    ∷ before_save id stack_name parameters

unfoldable pub after_find :
    List DeploymentInstanceParameter → DeploymentInstanceParameters → DeploymentInstanceParameters
after_find [] m = m
after_find (p ∷ ps) m = after_find ps (put m p.parameter_name p)

module _ {W : Type 0} (T : InstanceTables W) (C : Ciphers W) (key : String) where
  -- What follows the deletion of the locks, in the transaction.
  unfoldable pub delete_unlocked_instance : ℕ → Answer (Unit {0}) × W → Answer (Unit {0}) × W
  delete_unlocked_instance id (done _, w) = T.delete_instance id w
  delete_unlocked_instance id (record_not_found, w) =
      (failed "failed to release database lock held by instance %q: %v", w)
  delete_unlocked_instance id (duplicated_key, w) =
      (failed "failed to release database lock held by instance %q: %v", w)
  delete_unlocked_instance id (failed m, w) =
      (failed "failed to release database lock held by instance %q: %v", w)

  unfoldable pub delete_deployment_instance : DeploymentInstance → Action W (Unit {0})
  delete_deployment_instance i w =
      let (a, w') =
        T.transaction (λ v. delete_unlocked_instance i.id (T.delete_locks_of_instance i.id v)) w in
      (
        unless_found (new_not_found "instance not found by id: %d")
            (errorf "failed to delete instance %q: %v") a,
        w',
      )

  unfoldable pub delete_deployment : Deployment → Action W (Unit {0})
  delete_deployment d w =
      let (a, w') = T.delete_deployment d w in
      (
        unless_found (new_not_found "deployment not found by id: %d")
            (errorf "failed to delete deployment: %v") a,
        w',
      )

  unfoldable pub save_deployment : Deployment → Action W (Unit {0})
  save_deployment d w =
      let (a, w') = T.save_deployment d w in
      (
        unless_taken (new_duplicated "a deployment named %q already exists in group %q")
            (errorf "failed to save deployment: %v") a,
        w',
      )

  unfoldable pub find_deployment_by_id : ℕ → Action W Deployment
  find_deployment_by_id id w =
      let (a, w') = T.first_deployment id w in
      (
        unless_found (new_not_found "deployment not found by id: %d")
            (errorf "failed to find deployment: %v") a,
        w',
      )

  unfoldable pub find_deployment_instance_by_id : ℕ → Action W DeploymentInstance
  find_deployment_instance_by_id id w =
      let (a, w') = T.first_instance id w in
      (
        unless_found (new_not_found "instance not found by id: %d")
            (errorf "failed to find instance: %v") a,
        w',
      )

  unfoldable pub decrypt_deployment_instance :
      DeploymentInstance → Stack → Result DeploymentInstance
  decrypt_deployment_instance i stack = elim (decrypt_parameters C key stack i.parameters) [
    | err e ↦ err e
    | ok parameters ↦ ok (record i { parameters = parameters })
  ]

  -- `stacksByName[instance.StackName]`, whose parameters are read through a pointer.
  unfoldable pub decrypt_known : DeploymentInstance → Option Stack → Result DeploymentInstance
  decrypt_known i (some stack) = decrypt_deployment_instance i stack
  decrypt_known i none = elim i.parameters [ [] ↦ ok i | p ∷ ps ↦ err nil_pointer ]

  unfoldable pub decrypt_instances :
      Dict Stack → List DeploymentInstance → Result (List DeploymentInstance)
  decrypt_instances stacks [] = ok []
  decrypt_instances stacks (i ∷ is) = elim (decrypt_known i (get stacks i.stack_name)) [
    | err e ↦ err e
    | ok j ↦ elim (decrypt_instances stacks is) [ err e ↦ err e | ok js ↦ ok (j ∷ js) ]
  ]

  unfoldable pub decrypt_deployment : Deployment → Dict Stack → Result Deployment
  decrypt_deployment d stacks = elim (decrypt_instances stacks d.instances) [
    | err e ↦ err e
    | ok instances ↦ ok (record d { instances = instances })
  ]

  -- Returns the instance as it leaves it.
  unfoldable pub save_instance : DeploymentInstance → Stack → Action W DeploymentInstance
  save_instance i stack = do
    parameters ← encrypt_parameters C key stack i.parameters
    let sealed = record i { parameters = parameters }
    _ ← λ w.
        let (a, w') = T.save_instance sealed w in
        (
          unless_taken
              (new_duplicated
                "an instance for stack %q already exists in deployment %q in group %q")
              (errorf "failed to save instance: %v") a,
          w',
        )
    pure sealed

  unfoldable pub save_deploy_log : DeploymentInstance → String → Action W (Unit {0})
  save_deploy_log i log w =
      let (a, w') = T.update_deploy_log i.id log w in
      let failure = errorf "failed to save deploy log: %v" in (unless_found failure failure a, w')

  unfoldable pub find_public_rows : Action W (List Published)
  find_public_rows w =
      let (a, w') = T.public_instances w in
      let failure = errorf "failed to find instances: %v" in (unless_found failure failure a, w')

  unfoldable pub record_backup : Database → Action W Database
  record_backup d w =
      let slug = T.make_slug (d.group_name <> ("/" <> (d.name <> ("-" <> d.type)))) in
      let (a, w') = T.save_database (record d { slug = slug }) w in
      (stored (new_duplicated "database named %q already exists") a, w')

  unfoldable pub save_database : Database → Action W Database
  save_database d w = let (a, w') = T.save_database d w in (plainly a, w')

  -- No deployments are no error.
  unfoldable pub or_empty : Answer (List Deployment) → Result (List Deployment)
  or_empty (done ds) = ok ds
  or_empty record_not_found = ok []
  or_empty duplicated_key = err (errorf "failed to find deployments: %v")
  or_empty (failed m) = err (errorf "failed to find deployments: %v")

  unfoldable pub find_all_deployments : Action W (List Deployment)
  find_all_deployments w = let (a, w') = T.all_deployments w in (or_empty a, w')
