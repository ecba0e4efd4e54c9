-- ===== src/Instance/Handler.antt =====
-- pkg/instance/handler.go: what the handlers share. Each has a module of its own kind: those that
-- change a deployment, those that act on one instance, and those that only read.
pub mod Stripping
pub mod Hiding
pub mod Deployments
pub mod Instances
pub mod Reading
pub mod Permission
pub mod Changes
pub mod Replies
use im_manager.Base.{ℕ, String, Bool, Option, List}
use im_manager.Base.Dict.{Dict}
use im_manager.Errdef.{Error, new_unauthorized, errorf}
use im_manager.Action.{Action}
use im_manager.Model.{Group, User, Deployment, DeploymentInstance, DeploymentInstanceParameters}
use im_manager.Authorize.{can_write_deployment, can_read_deployment}
use im_manager.Instance.Listing.{GroupWithDeployments, GroupWithPublicInstances}
use im_manager.Instance.Status.{InstanceStatus}
use im_manager.Web.{
  Request, Handling, serve, check, require, require_or_abort, reply, get_user_from_context, ◌>>=◌,
  ◌>>◌,
}

-- The calls that the handlers make of the group service, of the instance service and of the
-- deployment service. A call that changes the deployment or the instance behind the pointer that it is
-- given returns it as it leaves it. Of a stream of logs it returns what can be read of it.
pub record Services (W : Type 0) : Type 0 where
  pub find_group : String → Action W Group
  pub find_deployment_by_id : ℕ → Action W Deployment
  pub find_decrypted_deployment_by_id : ℕ → Action W Deployment
  pub find_deployment_instance_by_id : ℕ → Action W DeploymentInstance
  pub find_decrypted_deployment_instance_by_id : ℕ → Action W DeploymentInstance
  pub save_deployment : Deployment → Action W Deployment
  pub save_instance : DeploymentInstance → Action W DeploymentInstance
  pub pause : DeploymentInstance → Action W (Unit {0})
  pub resume : DeploymentInstance → Action W (Unit {0})
  pub restart : DeploymentInstance → String → Action W (Unit {0})
  pub delete_instance : ℕ → ℕ → Action W (Unit {0})
  pub delete_deployment : Deployment → Action W (Unit {0})
  pub logs : DeploymentInstance → Group → String → Action W String
  pub find_deployments : User → Action W (List GroupWithDeployments)
  pub find_public_instances : Action W (List GroupWithPublicInstances)
  pub get_status : DeploymentInstance → Action W InstanceStatus
  pub deploy_deployment : String → Deployment → Action W Deployment
  pub update_deployment : String → ℕ → ℕ → String → Action W Deployment
  pub update_instance :
      String → ℕ → ℕ → DeploymentInstanceParameters → Option Bool → Action W DeploymentInstance
  pub reset : String → DeploymentInstance → ℕ → Action W (Unit {0})

module _ {W B : Type 0} (S : Services W) (r : Request B) where
  -- From the user in the context to the test whether they may write the deployment.
  unfoldable pub writable_deployment : (ℕ → Action W Deployment) → ℕ → Handling W Deployment
  writable_deployment find id = do
    user ← check (get_user_from_context r)
    deployment ← serve (find id)
    require (can_write_deployment user deployment) (new_unauthorized "write access denied")
    reply deployment

  -- The same for an instance, whose deployment decides; it denies by `AbortWithError`.
  unfoldable pub writable_instance :
      (ℕ → Action W DeploymentInstance) → ℕ → Handling W (DeploymentInstance × Deployment)
  writable_instance find id = do
    user ← check (get_user_from_context r)
    instance ← serve (find id)
    deployment ← serve (S.find_deployment_by_id instance.deployment_id)
    require_or_abort (can_write_deployment user deployment) 401 (errorf "write access denied")
    reply (instance, deployment)

  unfoldable pub readable_instance : ℕ → Handling W DeploymentInstance
  readable_instance id = do
    user ← check (get_user_from_context r)
    instance ← serve (S.find_deployment_instance_by_id id)
    deployment ← serve (S.find_deployment_by_id instance.deployment_id)
    require (can_read_deployment user deployment) (new_unauthorized "read access denied")
    reply instance
