-- ===== src/Group/Handler.antt =====
-- pkg/group/handler.go
use im_manager.Base.{
  ℕ, String, Bool, true, false, not, Option, none, some, List, ◌==◌, ◌||◌, string_eq, if◌then◌else◌,
}
use im_manager.Errdef.{Result, ok, err, errorf, new_bad_request, new_forbidden, is_not_found}
use im_manager.Model.{Group}
use im_manager.Authorize.{can_access_group}
use im_manager.Group.Repository
use im_manager.Group.Repository.{GroupTables, Joined, Detailed}
use im_manager.Group.Service
use im_manager.Group.Service.{Callees}
use im_manager.Web.{
  Request, Outcome, went_on, left_error, aborted, Handling, serve, check, require, require_or_abort,
  reply, Reply, data_binder, value_of, parse_uint_32, get_path_parameter, get_user_from_context,
  ◌>>=◌, ◌>>◌,
}

pub record CreateGroupRequest : Type 0 where
  pub name : String
  pub namespace : String
  pub description : String
  pub hostname : String
  pub deployable : Bool
  pub cluster_id : Option ℕ

pub record UpdateGroupRequest : Type 0 where
  pub namespace : String
  pub description : String
  pub hostname : String
  pub deployable : Bool
  pub cluster_id : Option ℕ

-- A not-found error aborts with 404, any other is left.
unfoldable pub or_not_found : {W A : Type 0} → Result A × W → Outcome A × W
or_not_found (ok a, w) = (went_on a, w)
or_not_found (err e, w) = ((if is_not_found e then aborted 404 e else left_error e), w)

-- strconv.ParseBool of a value that is given.
unfoldable pub parse_bool : String → Result Bool
parse_bool s =
    if s == ""
    then ok false
    else if s == "1" || (s == "t" || (s == "T" || (s == "TRUE" || (s == "true" || s == "True"))))
    then ok true
    else if s == "0" || (s == "f" || (s == "F" || (s == "FALSE" || (s == "false" || s == "False"))))
    then ok false
    else err (errorf "invalid syntax")

-- The parameter of the path, parsed.
unfoldable pub cluster_id : {B : Type 0} → Request B → Result ℕ
cluster_id r = elim (parse_uint_32 (value_of r.params "clusterId")) [
  | none ↦ err (new_bad_request "invalid cluster id")
  | some id ↦ ok id
]

module _ {W : Type 0} (T : GroupTables W) (C : Callees W) where
  unfoldable pub create : Request CreateGroupRequest → Handling W (Reply Group)
  create r = do
    q ← check (data_binder r)
    group ←
        serve
          (Service.create T C q.name q.namespace q.description q.hostname q.deployable q.cluster_id)
    reply (record { status = 201; body = group })

  unfoldable pub update : Request UpdateGroupRequest → Handling W (Reply Joined)
  update r = do
    q ← check (data_binder r)
    group ← λ w. or_not_found (
        Service.update T C (value_of r.params "name") q.namespace q.description q.hostname
          q.deployable q.cluster_id w)
    reply (record { status = 200; body = group })

  module _ {B : Type 0} (r : Request B) where
    unfoldable pub add_user_to_group : Handling W (Reply (Unit {0}))
    add_user_to_group = do
      user_id ← get_path_parameter r "userId"
      λ w. or_not_found (Service.add_user T C (value_of r.params "group") user_id w)
      reply (record { status = 201; body = tt })

    unfoldable pub add_admin_user_to_group : Handling W (Reply (Unit {0}))
    add_admin_user_to_group = do
      user_id ← get_path_parameter r "userId"
      λ w. or_not_found (Service.add_admin_user T C (value_of r.params "group") user_id w)
      reply (record { status = 201; body = tt })

    unfoldable pub remove_admin_user_from_group : Handling W (Reply (Unit {0}))
    remove_admin_user_from_group = do
      user_id ← get_path_parameter r "userId"
      λ w. or_not_found (Service.remove_admin_user T C (value_of r.params "group") user_id w)
      reply (record { status = 204; body = tt })

    unfoldable pub remove_user_from_group : Handling W (Reply (Unit {0}))
    remove_user_from_group = do
      user_id ← get_path_parameter r "userId"
      serve (Service.remove_user T C (value_of r.params "group") user_id)
      reply (record { status = 204; body = tt })

    -- The user in the context, if they may access the group that the path names.
    unfoldable pub accessible : Handling W String
    accessible = do
      user ← check (get_user_from_context r)
      require_or_abort (can_access_group user (value_of r.params "name")) 403
          (new_forbidden "access denied")
      reply (value_of r.params "name")

    unfoldable pub find : Handling W (Reply Joined)
    find = do
      name ← accessible
      group ← serve (Repository.find T name)
      reply (record { status = 200; body = group })

    unfoldable pub find_with_details : Handling W (Reply Detailed)
    find_with_details = do
      name ← accessible
      group ← serve (Repository.find_with_details T name)
      reply (record { status = 200; body = group })

    unfoldable pub find_all : Handling W (Reply (List Group))
    find_all = do
      user ← check (get_user_from_context r)
      deployable ← check (parse_bool (value_of r.query "deployable"))
      groups ← serve (Repository.find_all T user deployable)
      reply (record { status = 200; body = groups })

    unfoldable pub find_resources : Handling W (Reply C.Resources)
    find_resources = do
      require_or_abort (not (value_of r.params "name" == "")) 400 (errorf "group name not found")
      name ← accessible
      resources ← serve (Service.find_resources T C name)
      reply (record { status = 200; body = resources })

    unfoldable pub add_cluster_to_group : Handling W (Reply (Unit {0}))
    add_cluster_to_group = do
      require (not (value_of r.params "group" == "")) (new_bad_request "group name is required")
      id ← check (cluster_id r)
      serve (Service.add_cluster_to_group T C (value_of r.params "group") id)
      reply (record { status = 201; body = tt })

    unfoldable pub remove_cluster_from_group : Handling W (Reply (Unit {0}))
    remove_cluster_from_group = do
      require (not (value_of r.params "group" == "")) (new_bad_request "group name is required")
      id ← check (cluster_id r)
      serve (Service.remove_cluster_from_group T C (value_of r.params "group") id)
      reply (record { status = 202; body = tt })
