-- ===== src/Group/Service.antt =====
-- pkg/group/service.go
use im_manager.Base.{ℕ, String, Bool, Option, none, some}
use im_manager.Action.{Action, pure, ◌>>=◌, ◌>>◌}
use im_manager.Model.{Group, User, Cluster}
use im_manager.Group.Repository
use im_manager.Group.Repository.{GroupTables, Joined}

-- The calls of the user service, of the cluster service and of the instance package, which asks a
-- cluster for its resources.
pub record Callees (W : Type 0) : Type 1 where
  pub Resources : Type 0
  pub set_autoscaled : Bool → Resources → Resources
  pub find_user : ℕ → Action W User
  pub find_cluster : ℕ → Action W Cluster
  pub find_resources : Cluster → Action W Resources

unfoldable pub group_of : String → String → String → String → Bool → Option ℕ → Group
group_of name namespace description hostname deployable cluster_id = record {
  id = 0;
  name = name;
  namespace = namespace;
  description = description;
  hostname = hostname;
  deployable = deployable;
  cluster_id = cluster_id;
}

module _ {W : Type 0} (T : GroupTables W) (C : Callees W) where
  -- The id of the cluster, looked up, if one is given.
  unfoldable pub known_cluster : Option ℕ → Action W (Option ℕ)
  known_cluster none = pure none
  known_cluster (some id) = do cluster ← C.find_cluster id; pure (some cluster.id)

  unfoldable pub create : String → String → String → String → Bool → Option ℕ → Action W Group
  create name namespace description hostname deployable cluster_id = do
    known ← known_cluster cluster_id
    Repository.create T (group_of name namespace description hostname deployable known)

  unfoldable pub find_or_create : String → String → String → Bool → Action W Group
  find_or_create name namespace hostname deployable =
      Repository.find_or_create T (group_of name namespace "" hostname deployable none)

  -- What `AddUser`, `RemoveUser`, `AddAdminUser` and `RemoveAdminUser` share.
  unfoldable pub with_user : (Group → User → Action W (Unit {0})) → String → ℕ → Action W (Unit {0})
  with_user change group_name user_id = do
    joined ← Repository.find T group_name
    user ← C.find_user user_id
    change joined.group user

  unfoldable pub add_user : String → ℕ → Action W (Unit {0})
  add_user = with_user (Repository.add_user T)

  unfoldable pub remove_user : String → ℕ → Action W (Unit {0})
  remove_user = with_user (Repository.remove_user T)

  unfoldable pub add_admin_user : String → ℕ → Action W (Unit {0})
  add_admin_user = with_user (Repository.add_admin_user T)

  unfoldable pub remove_admin_user : String → ℕ → Action W (Unit {0})
  remove_admin_user = with_user (Repository.remove_admin_user T)

  unfoldable pub update : String → String → String → String → Bool → Option ℕ → Action W Joined
  update name namespace description hostname deployable cluster_id = do
    _ ← Repository.find T name
    _ ← known_cluster cluster_id
    Repository.update T name namespace description hostname deployable cluster_id
    Repository.find T name

  unfoldable pub find_resources : String → Action W C.Resources
  find_resources name = do
    joined ← Repository.find T name
    resources ← C.find_resources joined.cluster
    pure (C.set_autoscaled joined.cluster.autoscaled resources)

  unfoldable pub add_cluster_to_group : String → ℕ → Action W (Unit {0})
  add_cluster_to_group group_name cluster_id = do
    joined ← Repository.find T group_name
    cluster ← C.find_cluster cluster_id
    Repository.add_cluster_to_group T joined.group.name cluster.id

  unfoldable pub remove_cluster_from_group : String → ℕ → Action W (Unit {0})
  remove_cluster_from_group group_name cluster_id = do
    joined ← Repository.find T group_name
    cluster ← C.find_cluster cluster_id
    Repository.remove_cluster T joined.group.name cluster.id
