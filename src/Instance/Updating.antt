-- ===== src/Instance/Updating.antt =====
-- pkg/instance/service.go: `UpdateInstanceParameters`, and what it shares with the other operations
-- on one instance.
pub mod Supplying
pub mod Laws
use im_manager.Base.{
  ℕ, zero, suc, String, ◌<>◌, Bool, true, false, not, Option, none, some, List, [], ◌∷◌, ◌++◌, ◌==◌,
  nat_eq, if◌then◌else◌,
}
use im_manager.Base.Dict.{Dict, put}
use im_manager.Base.Lists.{length, get_elem?, modify}
use im_manager.Base.Text.{trim_suffix}
use im_manager.Errdef.{Error, Result, ok, err, errorf, new_bad_request, nil_pointer}
use im_manager.Action.{Action, pure, lift, ◌>>=◌, ◌>>◌, on_failure}
use im_manager.Model.{
  Group, Database, DeploymentInstance, Deployment, DeploymentInstanceParameter,
  DeploymentInstanceParameters,
}
use im_manager.Graph.{GraphLib}
use im_manager.Stack
use im_manager.Stack.{Stack, Stacks}
use im_manager.Instance.Links.{validate_no_cycles}
use im_manager.Instance.Parameters.{reject_consumed_parameters, resolve_parameters}
use im_manager.Instance.Saving.{Repository, names, decrypt_deployment, last_resolved}

-- The calls of the repository for one instance. `save_instance` returns the instance as it leaves it,
-- with the sensitive parameters encrypted.
pub record InstanceRows (W : Type 0) : Type 0 where
  pub find_deployment_instance_by_id : ℕ → Action W DeploymentInstance
  pub decrypt_deployment_instance : DeploymentInstance → Stack → Action W DeploymentInstance
  pub save_instance : DeploymentInstance → Stack → Action W DeploymentInstance

unfoldable pub find_decrypted_deployment_instance_by_id :
    {W : Type 0} → InstanceRows W → Stacks → ℕ → Action W DeploymentInstance
find_decrypted_deployment_instance_by_id I stacks id = do
  instance ← I.find_deployment_instance_by_id id
  stack ← lift (Stack.find stacks instance.stack_name)
  I.decrypt_deployment_instance instance stack

-- instance.DeploymentID != deploymentId
unfoldable pub reject_other_deployment : ℕ → DeploymentInstance → Result (Unit {0})
reject_other_deployment deployment_id instance =
    if instance.deployment_id == deployment_id
    then ok tt
    else err (new_bad_request "instance %d does not belong to deployment %d")

-- if public != nil { … }
unfoldable pub set_public : Option Bool → DeploymentInstance → DeploymentInstance
set_public none instance = instance
set_public (some public) instance = record instance { public = public }

-- instance.Parameters[name] = …
unfoldable pub supply :
    DeploymentInstanceParameters → DeploymentInstanceParameters → DeploymentInstanceParameters
supply parameters [] = parameters
supply parameters ((name, p) ∷ supplied) =
    supply
      (put parameters name (record {
        deployment_instance_id = 0;
        parameter_name = name;
        stack_name = "";
        value = p.value;
      }))
      supplied

unfoldable pub position_of : ℕ → List DeploymentInstance → ℕ
position_of id [] = 0
position_of id (i ∷ is) = let rest = position_of id is in if i.id == id then 0 else suc rest

-- The instance as the loop leaves it, which changes it only if the deployment has it.
unfoldable pub resolved_at : DeploymentInstance → List DeploymentInstance → ℕ → DeploymentInstance
resolved_at instance resolved k = elim (get_elem? resolved k) [ none ↦ instance | some i ↦ i ]

module _ {W : Type 0} (R : Repository W) (I : InstanceRows W) (G : GraphLib) (stacks : Stacks) where
  unfoldable pub update_instance_parameters :
      ℕ → ℕ → DeploymentInstanceParameters → Option Bool → Action W DeploymentInstance
  update_instance_parameters deployment_id instance_id parameters public = do
    found ← find_decrypted_deployment_instance_by_id I stacks instance_id
    _ ← lift (reject_other_deployment deployment_id found)
    _ ← lift (reject_consumed_parameters stacks found.stack_name (names parameters))
    let instance = record (set_public public found) {
      parameters = supply found.parameters parameters;
    }
    deployment ← R.find_deployment_by_id deployment_id
    decrypted ← decrypt_deployment R G stacks deployment
    let k = position_of instance_id decrypted.instances
    let instances = modify decrypted.instances k (λ _. instance)
    _ ←
        on_failure (lift (validate_no_cycles G stacks instances))
          (λ _. new_bad_request "failed to validate instance: %v")
    resolved ←
        on_failure (lift (resolve_parameters stacks instances))
          (λ _. new_bad_request "failed to resolve parameters: %v")
    stack ← lift (Stack.find stacks instance.stack_name)
    I.save_instance (resolved_at instance resolved k) stack
