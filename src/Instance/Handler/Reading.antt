-- ===== src/Instance/Handler/Reading.antt =====
-- pkg/instance/handler.go: the handlers that only read.
use Prim.Native.Char.{code}
use im_manager.Base.{String, Bool, false, ◌||◌, List, ◌==◌, nat_eq, if◌then◌else◌}
use im_manager.Errdef.{new_unauthorized}
use im_manager.Model.{Deployment, DeploymentInstance}
use im_manager.Authorize.{can_read_deployment}
use im_manager.Stack.{Stacks}
use im_manager.Instance.Handler.{Services, readable_instance}
use im_manager.Instance.Handler.Stripping.{strip_deployment, strip_instance, strip_groups}
use im_manager.Instance.Listing.{GroupWithDeployments, GroupWithPublicInstances}
use im_manager.Instance.Status.{InstanceStatus}
use im_manager.Web.{
  Request, Handling, serve, check, require, reply, Reply, get_path_parameter, get_user_from_context,
  value_of, ◌>>=◌, ◌>>◌,
}

unfoldable pub has_new_line : String → Bool
has_new_line String.[] = false
has_new_line (String.◌∷◌ c s) = code c == 10 || has_new_line s

-- The text up to its last new line: `ReadBytes` returns what follows it with an error, on which the
-- loop of `Logs` stops.
unfoldable pub streamed : String → String
streamed String.[] = String.[]
streamed (String.◌∷◌ c s) =
    let rest = streamed s in if has_new_line (String.◌∷◌ c s) then String.◌∷◌ c rest else String.[]

module _ {W B : Type 0} (S : Services W) (stacks : Stacks) (r : Request B) where
  unfoldable pub find_deployment_by_id : Handling W (Reply Deployment)
  find_deployment_by_id = do
    id ← get_path_parameter r "id"
    user ← check (get_user_from_context r)
    deployment ← serve (S.find_deployment_by_id id)
    require (can_read_deployment user deployment) (new_unauthorized "read access denied")
    stripped ← check (strip_deployment stacks deployment)
    reply (record { status = 200; body = stripped })

  unfoldable pub instance_with_details : Handling W (Reply DeploymentInstance)
  instance_with_details = do
    id ← get_path_parameter r "id"
    instance ← readable_instance S r id
    stripped ← check (strip_instance stacks instance)
    reply (record { status = 200; body = stripped })

  unfoldable pub logs : Handling W (Reply String)
  logs = do
    id ← get_path_parameter r "id"
    instance ← readable_instance S r id
    group ← serve (S.find_group instance.group_name)
    text ← serve (S.logs instance group (value_of r.query "selector"))
    reply (record { status = 200; body = streamed text })

  unfoldable pub find_deployments : Handling W (Reply (List GroupWithDeployments))
  find_deployments = do
    user ← check (get_user_from_context r)
    groups ← serve (S.find_deployments user)
    stripped ← check (strip_groups stacks groups)
    reply (record { status = 200; body = stripped })

  unfoldable pub find_public_instances : Handling W (Reply (List GroupWithPublicInstances))
  find_public_instances = do
    groups ← serve S.find_public_instances
    reply (record { status = 200; body = groups })

  unfoldable pub status : Handling W (Reply InstanceStatus)
  status = do
    id ← get_path_parameter r "id"
    instance ← readable_instance S r id
    found ← serve (S.get_status instance)
    reply (record { status = 200; body = found })
