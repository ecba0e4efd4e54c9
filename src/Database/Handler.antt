-- ===== src/Database/Handler.antt =====
-- pkg/database/handler.go: what the handlers share, and the list of databases of pkg/database/service.go.
pub mod Records
pub mod Instances
pub mod Permission
pub mod Changes
pub mod Denial
pub mod Downloads
use im_manager.Base.{
  ℕ, String, Bool, true, false, Option, none, some, List, [], ◌∷◌, ◌++◌, ◌==◌, string_eq, map,
  if◌then◌else◌,
}
use im_manager.Base.Dict.{Dict, put}
use im_manager.Base.Sorting.{sort_by}
use im_manager.Errdef.{Error, Result, ok, err, new_forbidden, new_not_found, is_not_found}
use im_manager.Action.{Action, pure, ◌>>=◌}
use im_manager.Model.{Group, User, Database, Deployment, DeploymentInstance}
use im_manager.Authorize.{can_access}
use im_manager.Stack.{Stack}
use im_manager.Database.Tables.{Tables}
use im_manager.Database.Repository.{find_by_group_names}
use im_manager.Web.{Request, get_user_from_context}

-- The calls that the handlers make of the other services, and of the uuid library. `save` and
-- `save_as` are those of the deployment service.
pub record Others (W : Type 0) : Type 0 where
  pub find_group : String → Action W Group
  pub find_decrypted_deployment_instance_by_id : ℕ → Action W DeploymentInstance
  pub find_deployment_by_id : ℕ → Action W Deployment
  pub save_as :
      ℕ
      → DeploymentInstance
      → Stack
      → Option DeploymentInstance
      → String
      → String
      → Action W Database
  pub save :
      ℕ → Database → DeploymentInstance → Stack → Option DeploymentInstance → Action W (Unit {0})
  pub parse_uuid : String → Result String

-- `canAccess`
unfoldable pub access : {B : Type 0} → Request B → Database → Result (Unit {0})
access r d = elim (get_user_from_context r) [
  | err e ↦ err e
  | ok user ↦ if can_access user d then ok tt else err (new_forbidden "access denied")
]

unfoldable pub get_instance_by_stack : String → List DeploymentInstance → Result DeploymentInstance
get_instance_by_stack stack [] = err (new_not_found "failed to find instance of type %s")
get_instance_by_stack stack (instance ∷ instances) =
    if instance.stack_name == stack then ok instance else get_instance_by_stack stack instances

-- `err != nil && !errdef.IsNotFound(err)`: a deployment without a core has a nil pointer.
unfoldable pub core_instance : List DeploymentInstance → Result (Option DeploymentInstance)
core_instance instances = elim (get_instance_by_stack "dhis2-core" instances) [
  | ok instance ↦ ok (some instance)
  | err e ↦ if is_not_found e then ok none else err e
]

pub record GroupsWithDatabases : Type 0 where
  pub name : String
  pub databases : List Database

-- The keys of a map from names to anything, in which each name is put.
unfoldable pub keys_of : List String → Dict (Unit {0}) → List String
keys_of [] m = map (λ (name, _). name) m
keys_of (name ∷ names) m = keys_of names (put m name tt)

unfoldable pub filter_databases : (Database → Bool) → List Database → List Database
filter_databases test [] = []
filter_databases test (d ∷ ds) =
    let rest = filter_databases test ds in if test d then d ∷ rest else rest

-- One round of the loop over the names of the groups.
unfoldable pub group_with_databases : List Database → String → GroupsWithDatabases
group_with_databases databases group_name = record {
  name = group_name;
  databases = sort_by (λ d. d.name) (filter_databases (λ d. d.group_name == group_name) databases);
}

unfoldable pub groups_with_databases : List Database → List GroupsWithDatabases
groups_with_databases databases =
    sort_by (λ g. g.name)
      (map (group_with_databases databases) (keys_of (map (λ d. d.group_name) databases) []))

unfoldable pub list : {W : Type 0} → Tables W → User → Action W (List GroupsWithDatabases)
list T user = do
  databases ←
      find_by_group_names T (keys_of (map (λ g. g.name) (user.groups ++ user.admin_groups)) [])
  pure (groups_with_databases databases)
