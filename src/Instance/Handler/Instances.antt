-- ===== src/Instance/Handler/Instances.antt =====
-- pkg/instance/handler.go: the handlers that change an instance of a deployment.
use im_manager.Base.{ℕ, String, Bool, Option, [], ◌∷◌}
use im_manager.Base.Dict.{Dict}
use im_manager.Errdef.{errorf}
use im_manager.Model.{Deployment, DeploymentInstance, DeploymentInstanceParameters}
use im_manager.Authorize.{can_write_deployment}
use im_manager.Stack.{Stacks}
use im_manager.Instance.Handler.{Services, writable_deployment, writable_instance}
use im_manager.Instance.Handler.Stripping.{strip_instance}
use im_manager.Web.{
  Request, Handling, serve, check, require_or_abort, reply, Reply, get_path_parameter,
  get_user_from_context, get_token_from_request, data_binder, value_of, ◌>>=◌, ◌>>◌,
}

pub record Parameter : Type 0 where
  pub value : String

abbrev pub Parameters : Type 0
Parameters = Dict Parameter

pub record SaveInstanceRequest : Type 0 where
  pub stack_name : String
  pub parameters : Parameters
  pub public : Bool

pub record UpdateInstanceRequest : Type 0 where
  pub parameters : Parameters
  pub public : Option Bool

-- The loop over `request.Parameters`, whose names differ.
unfoldable pub instance_parameters : Parameters → DeploymentInstanceParameters
instance_parameters [] = []
instance_parameters ((name, p) ∷ ps) =
    (
      name,
      record {
        deployment_instance_id = 0;
        parameter_name = name;
        stack_name = "";
        value = p.value;
      },
    )
    ∷ instance_parameters ps

unfoldable pub instance_of : SaveInstanceRequest → ℕ → Deployment → DeploymentInstance
instance_of request deployment_id deployment = record {
  id = 0;
  name = deployment.name;
  group = deployment.group;
  group_name = deployment.group_name;
  stack_name = request.stack_name;
  deployment_id = deployment_id;
  parameters = instance_parameters request.parameters;
  public = request.public;
  deploy_log = "";
}

module _ {W : Type 0} (S : Services W) (stacks : Stacks) where
  unfoldable pub save_instance : Request SaveInstanceRequest → Handling W (Reply DeploymentInstance)
  save_instance r = do
    request ← check (data_binder r)
    deployment_id ← get_path_parameter r "id"
    user ← check (get_user_from_context r)
    deployment ← serve (S.find_deployment_by_id deployment_id)
    require_or_abort (can_write_deployment user deployment) 401 (errorf "write access denied")
    saved ← serve (S.save_instance (instance_of request deployment_id deployment))
    stripped ← check (strip_instance stacks saved)
    reply (record { status = 201; body = stripped })

  unfoldable pub update_instance :
      Request UpdateInstanceRequest → Handling W (Reply DeploymentInstance)
  update_instance r = do
    deployment_id ← get_path_parameter r "id"
    instance_id ← get_path_parameter r "instanceId"
    request ← check (data_binder r)
    _ ← writable_deployment S r S.find_deployment_by_id deployment_id
    token ← check (get_token_from_request r)
    instance ← serve (
        S.update_instance token deployment_id instance_id (instance_parameters request.parameters)
          request.public)
    reply (record { status = 200; body = instance })

module _ {W B : Type 0} (S : Services W) (r : Request B) where
  unfoldable pub delete_deployment_instance : Handling W (Reply (Unit {0}))
  delete_deployment_instance = do
    deployment_id ← get_path_parameter r "id"
    instance_id ← get_path_parameter r "instanceId"
    _ ← writable_deployment S r S.find_deployment_by_id deployment_id
    serve (S.delete_instance deployment_id instance_id)
    reply (record { status = 202; body = tt })

  unfoldable pub pause : Handling W (Reply (Unit {0}))
  pause = do
    id ← get_path_parameter r "id"
    (instance, _) ← writable_instance S r S.find_deployment_instance_by_id id
    serve (S.pause instance)
    reply (record { status = 202; body = tt })

  unfoldable pub reset : Handling W (Reply (Unit {0}))
  reset = do
    id ← get_path_parameter r "id"
    token ← check (get_token_from_request r)
    (instance, deployment) ← writable_instance S r S.find_decrypted_deployment_instance_by_id id
    serve (S.reset token instance deployment.ttl)
    reply (record { status = 202; body = tt })

  unfoldable pub resume : Handling W (Reply (Unit {0}))
  resume = do
    id ← get_path_parameter r "id"
    (instance, _) ← writable_instance S r S.find_decrypted_deployment_instance_by_id id
    serve (S.resume instance)
    reply (record { status = 202; body = tt })

  unfoldable pub restart : Handling W (Reply (Unit {0}))
  restart = do
    id ← get_path_parameter r "id"
    (instance, _) ← writable_instance S r S.find_deployment_instance_by_id id
    serve (S.restart instance (value_of r.query "selector"))
    reply (record { status = 202; body = tt })
