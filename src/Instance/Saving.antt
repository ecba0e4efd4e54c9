-- ===== src/Instance/Saving.antt =====
-- `SaveInstance` and `DeleteInstance` of pkg/instance/service.go, over the calls that they make of the
-- repository and of the cluster.
pub mod Laws
use im_manager.Base.{
  ℕ, String, Bool, true, false, Option, none, some, List, [], ◌∷◌, ◌++◌, ◌==◌, nat_eq,
  if◌then◌else◌,
}
use im_manager.Base.Dict.{Dict, put}
use im_manager.Base.Lists.{length, get_elem?}
use im_manager.Errdef.{Error, Result, ok, err, errorf, new_bad_request, new_not_found, nil_pointer}
use im_manager.Action.{Action, pure, lift, ◌>>=◌, ◌>>◌, on_failure}
use im_manager.Model.{DeploymentInstance, Deployment, DeploymentInstanceParameters}
use im_manager.Graph.{GraphLib}
use im_manager.Stack
use im_manager.Stack.{Stack, Stacks}
use im_manager.Instance.Links.{validate_no_cycles}
use im_manager.Instance.Parameters.{reject_consumed_parameters, resolve_parameters}

-- The calls. `destroy_instance` is `DestroyInstance`, which runs helmfile and kubectl.
pub record Repository (W : Type 0) : Type 0 where
  pub find_deployment_by_id : ℕ → Action W Deployment
  pub decrypt_deployment : Deployment → Dict Stack → Action W Deployment
  pub save_instance : DeploymentInstance → Stack → Action W (Unit {0})
  pub destroy_instance : DeploymentInstance → Action W (Unit {0})
  pub delete_deployment_instance : DeploymentInstance → Action W (Unit {0})

-- maps.Keys
unfoldable pub names : DeploymentInstanceParameters → List String
names [] = []
names ((name, _) ∷ parameters) = name ∷ names parameters

-- slices.IndexFunc, and the instance at that index.
unfoldable pub instance_with_id : ℕ → List DeploymentInstance → Option DeploymentInstance
instance_with_id id [] = none
instance_with_id id (i ∷ is) = if id == i.id then some i else instance_with_id id is

-- slices.DeleteFunc
unfoldable pub instances_without : ℕ → List DeploymentInstance → List DeploymentInstance
instances_without id [] = []
instances_without id (i ∷ is) =
    let rest = instances_without id is in if id == i.id then rest else i ∷ rest

-- The instance is shared by pointer: what is saved is the last of the resolved instances.
unfoldable pub last_resolved : List DeploymentInstance → ℕ → Result DeploymentInstance
last_resolved instances k = elim (get_elem? instances k) [ none ↦ err nil_pointer | some i ↦ ok i ]

unfoldable pub found_instance : Option DeploymentInstance → Result DeploymentInstance
found_instance none = err (new_not_found "instance %d not found in deployment %d")
found_instance (some i) = ok i

module _ {W : Type 0} (R : Repository W) (G : GraphLib) (stacks : Stacks) where
  -- `stacksByName`
  unfoldable pub stacks_by_name : List DeploymentInstance → Dict Stack → Result (Dict Stack)
  stacks_by_name [] m = ok m
  stacks_by_name (i ∷ is) m = elim (Stack.find stacks i.stack_name) [
    | err e ↦ err e
    | ok stack ↦ stacks_by_name is (put m i.stack_name stack)
  ]

  unfoldable pub decrypt_deployment : Deployment → Action W Deployment
  decrypt_deployment deployment = do
    by_name ← lift (stacks_by_name deployment.instances [])
    R.decrypt_deployment deployment by_name

  unfoldable pub save_instance : DeploymentInstance → Action W (Unit {0})
  save_instance instance = do
    lift (reject_consumed_parameters stacks instance.stack_name (names instance.parameters))
    deployment ← R.find_deployment_by_id instance.deployment_id
    decrypted ← decrypt_deployment deployment
    let instances = decrypted.instances ++ instance ∷ []
    on_failure (lift (validate_no_cycles G stacks instances))
        (λ _. new_bad_request "failed to validate instance: %v")
    resolved ←
        on_failure (lift (resolve_parameters stacks instances))
          (λ _. new_bad_request "failed to resolve parameters: %v")
    stack ← lift (Stack.find stacks instance.stack_name)
    saved ← lift (last_resolved resolved (length decrypted.instances))
    R.save_instance saved stack

  unfoldable pub delete_instance : ℕ → ℕ → Action W (Unit {0})
  delete_instance deployment_id instance_id = do
    deployment ← R.find_deployment_by_id deployment_id
    instance ← lift (found_instance (instance_with_id instance_id deployment.instances))
    on_failure
        (lift (validate_no_cycles G stacks (instances_without instance_id deployment.instances)))
        (λ _. new_bad_request "failed to delete instance: %v")
    on_failure (R.destroy_instance instance)
        (λ _. errorf "failed to destroy instance %d in deployment %d: %v")
    R.delete_deployment_instance instance
