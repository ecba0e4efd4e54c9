-- ===== src/Instance/Handler/Deployments.antt =====
-- pkg/instance/handler.go: the handlers that deploy, save, update or delete a deployment.
use im_manager.Base.{ℕ, String, Bool, true, false, none, List, [], ◌∷◌, ◌==◌, nat_eq, if◌then◌else◌}
use im_manager.Errdef.{errorf, new_forbidden, new_unauthorized, new_bad_request}
use im_manager.Action.{on_failure}
use im_manager.Model.{User, Deployment, DeploymentInstance}
use im_manager.Authorize.{can_write_deployment}
use im_manager.Stack.{Stacks}
use im_manager.Instance.Handler.{Services, writable_deployment}
use im_manager.Instance.Handler.Stripping.{strip_deployment}
use im_manager.Web.{
  Request, Handling, serve, check, require, reply, Reply, get_path_parameter, get_user_from_context,
  get_token_from_request, data_binder, ◌>>=◌, ◌>>◌,
}

pub record SaveDeploymentRequest : Type 0 where
  pub name : String
  pub description : String
  pub group : String
  pub ttl : ℕ

pub record UpdateDeploymentRequest : Type 0 where
  pub ttl : ℕ
  pub description : String

-- len(deployment.Instances) == 0
unfoldable pub has_instances : List DeploymentInstance → Bool
has_instances [] = false
has_instances (i ∷ is) = true

unfoldable pub deployment_of : SaveDeploymentRequest → ℕ → User → Deployment
deployment_of request default_ttl user = record {
  id = 0;
  created_at = 0;
  user_id = user.id;
  name = request.name;
  description = request.description;
  group_name = request.group;
  group = none;
  ttl = if request.ttl == 0 then default_ttl else request.ttl;
  instances = [];
}

module _ {W : Type 0} (S : Services W) (stacks : Stacks) where
  unfoldable pub deploy_deployment : {B : Type 0} → Request B → Handling W (Reply Deployment)
  deploy_deployment r = do
    id ← get_path_parameter r "id"
    deployment ← writable_deployment S r S.find_decrypted_deployment_by_id id
    require (has_instances deployment.instances)
        (new_bad_request "deployment contains no instances")
    token ← check (get_token_from_request r)
    deployed ← serve (S.deploy_deployment token deployment)
    stripped ← check (strip_deployment stacks deployed)
    reply (record { status = 200; body = stripped })

  unfoldable pub save_deployment : ℕ → Request SaveDeploymentRequest → Handling W (Reply Deployment)
  save_deployment default_ttl r = do
    request ← check (data_binder r)
    group ← serve (S.find_group request.group)
    require group.deployable (new_forbidden "group isn't deployable: %s")
    user ← check (get_user_from_context r)
    let deployment = deployment_of request default_ttl user
    require (can_write_deployment user deployment) (new_unauthorized "write access denied")
    saved ← serve (S.save_deployment deployment)
    stripped ← check (strip_deployment stacks saved)
    reply (record { status = 201; body = stripped })

  unfoldable pub delete_deployment : {B : Type 0} → Request B → Handling W (Reply (Unit {0}))
  delete_deployment r = do
    id ← get_path_parameter r "id"
    deployment ← writable_deployment S r S.find_decrypted_deployment_by_id id
    serve (
        on_failure (S.delete_deployment deployment) (λ _. errorf "unable to delete deployment: %v"))
    reply (record { status = 202; body = tt })

  unfoldable pub update_deployment : Request UpdateDeploymentRequest → Handling W (Reply Deployment)
  update_deployment r = do
    id ← get_path_parameter r "id"
    request ← check (data_binder r)
    token ← check (get_token_from_request r)
    _ ← writable_deployment S r S.find_deployment_by_id id
    updated ← serve (S.update_deployment token id request.ttl request.description)
    reply (record { status = 200; body = updated })
