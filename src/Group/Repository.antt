-- ===== src/Group/Repository.antt =====
-- pkg/group/repository.go, over the calls that it makes of gorm.
use im_manager.Base.{ℕ, String, Bool, Option, none, some, List, [], ◌∷◌, ◌++◌, map, if◌then◌else◌}
use im_manager.Base.Dict.{Dict, put}
use im_manager.Base.Lists.{contains}
use im_manager.Base.{string_eq}
use im_manager.Errdef.{ok, errorf, new_not_found, new_duplicated}
use im_manager.Action.{Action, ◌>>=◌}
use im_manager.Model.{Group, User, Cluster, administrator_group_name}
use im_manager.Database.Tables.{Answer}
use im_manager.Database.Repository.{stored, executed, plainly, found}
use im_manager.Instance.Repository.{unless_found}

-- A group with its cluster, and with its users.
pub record Joined : Type 0 where
  pub group : Group
  pub cluster : Cluster

pub record Detailed : Type 0 where
  pub joined : Joined
  pub users : List User
  pub admin_users : List User

pub record GroupTables (W : Type 0) : Type 0 where
  pub first_group : String → W → Answer Joined
  pub first_group_with_details : String → W → Answer Detailed
  pub all_groups : W → Answer (List Group)
  pub deployable_groups : W → Answer (List Group)
  pub groups_by_name : List String → W → Answer (List Group)
  pub create_group : Group → W → Answer Group × W
  pub first_or_create_group : Group → W → Answer Group × W
  pub append_user : Group → User → W → Answer (Unit {0}) × W
  pub delete_user : Group → User → W → Answer (Unit {0}) × W
  pub append_admin_user : Group → User → W → Answer (Unit {0}) × W
  pub delete_admin_user : Group → User → W → Answer (Unit {0}) × W
  pub update_group : String → String → String → String → Bool → Option ℕ → W → Answer (Unit {0}) × W
  pub first_plain_group : String → W → Answer Group
  pub first_cluster : ℕ → W → Answer Cluster
  pub first_group_of_cluster : String → ℕ → W → Answer Group
  pub update_cluster_id : Group → Option ℕ → W → Answer (Unit {0}) × W

-- if group.Deployable { … }
unfoldable pub only_deployable : List Group → List Group
only_deployable [] = []
only_deployable (g ∷ gs) = let rest = only_deployable gs in if g.deployable then g ∷ rest else rest

-- groupsByName[group.Name] = group
unfoldable pub by_name : List Group → Dict Group → Dict Group
by_name [] m = m
by_name (g ∷ gs) m = by_name gs (put m g.name g)

-- maps.Values
unfoldable pub values : Dict Group → List Group
values [] = []
values ((name, g) ∷ m) = g ∷ values m

unfoldable pub find_all_from_user : User → Bool → List Group
find_all_from_user user deployable =
    let all_groups = user.groups ++ user.admin_groups in
    values (by_name (if deployable then only_deployable all_groups else all_groups) [])

module _ {W : Type 0} (T : GroupTables W) where
  unfoldable pub find : String → Action W Joined
  find name w = (
    unless_found (new_not_found "group %q doesn't exist") (errorf "failed to find group: %v")
        (T.first_group name w),
    w,
  )

  unfoldable pub find_with_details : String → Action W Detailed
  find_with_details name w = (
    unless_found (new_not_found "group %q doesn't exist")
        (errorf "failed to find group with details: %v") (T.first_group_with_details name w),
    w,
  )

  unfoldable pub find_all : User → Bool → Action W (List Group)
  find_all user deployable w =
      if contains (map (λ g. g.name) user.groups) administrator_group_name
      then (plainly (if deployable then T.deployable_groups w else T.all_groups w), w)
      else (ok (find_all_from_user user deployable), w)

  unfoldable pub create : Group → Action W Group
  create group w =
      let (a, w') = T.create_group group w in
      (stored (new_duplicated "group name/hostname already exists: %s") a, w')

  unfoldable pub find_or_create : Group → Action W Group
  find_or_create group w = executed (T.first_or_create_group group w)

  unfoldable pub add_user : Group → User → Action W (Unit {0})
  add_user group user w = executed (T.append_user group user w)

  unfoldable pub remove_user : Group → User → Action W (Unit {0})
  remove_user group user w = executed (T.delete_user group user w)

  unfoldable pub add_admin_user : Group → User → Action W (Unit {0})
  add_admin_user group user w = executed (T.append_admin_user group user w)

  unfoldable pub remove_admin_user : Group → User → Action W (Unit {0})
  remove_admin_user group user w = executed (T.delete_admin_user group user w)

  unfoldable pub find_by_group_names : List String → Action W (List Group)
  find_by_group_names names w = (plainly (T.groups_by_name names w), w)

  unfoldable pub update : String → String → String → String → Bool → Option ℕ → Action W (Unit {0})
  update name namespace description hostname deployable cluster_id w =
      let (a, w') = T.update_group name namespace description hostname deployable cluster_id w in
      (stored (new_duplicated "group hostname already exists: %s") a, w')

  unfoldable pub add_cluster_to_group : String → ℕ → Action W (Unit {0})
  add_cluster_to_group group_name cluster_id = do
    group ← λ w. (plainly (T.first_plain_group group_name w), w)
    _ ← λ w. (plainly (T.first_cluster cluster_id w), w)
    λ w. executed (T.update_cluster_id group (some cluster_id) w)

  unfoldable pub remove_cluster : String → ℕ → Action W (Unit {0})
  remove_cluster group_name cluster_id = do
    group ← λ w. (
      found (new_not_found "cluster not found in group")
          (T.first_group_of_cluster group_name cluster_id w),
      w,
    )
    λ w. executed (T.update_cluster_id group none w)
