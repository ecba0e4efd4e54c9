-- ===== src/Database/Handler/Instances.antt =====
-- pkg/database/handler.go: the handlers that save the database of an instance.
use im_manager.Base.{String, none, some}
use im_manager.Base.Dict.{get}
use im_manager.Errdef.{new_forbidden}
use im_manager.Model.{Database, DeploymentInstanceParameters}
use im_manager.Authorize.{can_access_group}
use im_manager.Stack.{Stacks, find}
use im_manager.Database.Tables.{Tables}
use im_manager.Database.Service.{Files, find_by_identifier}
use im_manager.Database.Handler.{Others, access, core_instance}
use im_manager.Web.{
  Request, Handling, serve, check, require, reply, Reply, get_path_parameter, get_user_from_context,
  data_binder, ◌>>=◌, ◌>>◌,
}

pub record SaveAsRequest : Type 0 where
  pub name : String
  pub format : String

-- `instance.Parameters["DATABASE_ID"].Value`: the empty text for an instance without it. The handler
-- leaves an error then, but goes on.
unfoldable pub database_id_of : DeploymentInstanceParameters → String
database_id_of parameters = elim (get parameters "DATABASE_ID") [ none ↦ "" | some p ↦ p.value ]

module _ {W : Type 0} (T : Tables W) (S : Files W) (O : Others W) (stacks : Stacks) where
  unfoldable pub save_as : Request SaveAsRequest → Handling W (Reply Database)
  save_as r = do
    request ← check (data_binder r)
    instance_id ← get_path_parameter r "instanceId"
    instance ← serve (O.find_decrypted_deployment_instance_by_id instance_id)
    stack ← check (find stacks instance.stack_name)
    user ← check (get_user_from_context r)
    require (can_access_group user instance.group_name) (new_forbidden "access denied")
    deployment ← serve (O.find_deployment_by_id instance.deployment_id)
    core ← check (core_instance deployment.instances)
    saved ← serve (O.save_as user.id instance stack core request.name request.format)
    reply (record { status = 201; body = saved })

  unfoldable pub save : {B : Type 0} → Request B → Handling W (Reply (Unit {0}))
  save r = do
    instance_id ← get_path_parameter r "instanceId"
    instance ← serve (O.find_decrypted_deployment_instance_by_id instance_id)
    stack ← check (find stacks instance.stack_name)
    database ← serve (find_by_identifier T S (database_id_of instance.parameters))
    check (access r database)
    user ← check (get_user_from_context r)
    deployment ← serve (O.find_deployment_by_id instance.deployment_id)
    core ← check (core_instance deployment.instances)
    serve (O.save user.id database instance stack core)
    reply (record { status = 202; body = tt })
