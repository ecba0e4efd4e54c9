-- ===== src/Authorize.antt =====
-- internal/handler/authorize.go: who may read, write, unlock or see what.
pub mod Laws
use im_manager.Base.{String, Bool, true, false, ◌&&◌, ◌||◌, Option, none, some, List, [], ◌∷◌}
use im_manager.Base.{◌==◌, string_eq, nat_eq, if◌then◌else◌}
use im_manager.Model.{Group, User, Deployment, Database, administrator_group_name}

unfoldable pub is_member_of : String → List Group → Bool
is_member_of group_name [] = false
is_member_of group_name (group ∷ groups) =
    if group_name == group.name then true else is_member_of group_name groups

unfoldable pub is_administrator : User → Bool
is_administrator user = is_member_of administrator_group_name user.groups

unfoldable pub can_write_deployment : User → Deployment → Bool
unfolding is_administrator
can_write_deployment user deployment =
    is_administrator user
    || (is_member_of deployment.group_name user.admin_groups
        || (user.id == deployment.user_id && is_member_of deployment.group_name user.groups))

unfoldable pub can_read_deployment : User → Deployment → Bool
unfolding is_administrator
can_read_deployment user deployment =
    is_administrator user || is_member_of deployment.group_name user.groups

unfoldable pub is_group_administrator : String → List Group → Bool
is_group_administrator group_name groups = is_member_of group_name groups

unfoldable pub has_lock : User → Database → Bool
has_lock user database = elim database.lock [ none ↦ false | some lock ↦ user.id == lock.user_id ]

unfoldable pub can_access : User → Database → Bool
unfolding is_administrator is_group_administrator
can_access user database =
    is_administrator user
    || (is_group_administrator database.group_name user.admin_groups
        || is_member_of database.group_name user.groups)

unfoldable pub can_unlock : User → Database → Bool
unfolding is_administrator is_group_administrator has_lock
can_unlock user database =
    is_administrator user
    || (is_group_administrator database.group_name user.admin_groups || has_lock user database)

unfoldable pub can_access_group : User → String → Bool
unfolding is_administrator is_group_administrator
can_access_group user group_name =
    is_administrator user
    || (is_member_of group_name user.groups || is_group_administrator group_name user.admin_groups)

-- Either loop of `sharesGroup`.
unfoldable pub shares_any : User → List Group → Bool
shares_any caller [] = false
shares_any caller (g ∷ groups) =
    if is_member_of g.name caller.groups || is_member_of g.name caller.admin_groups
    then true
    else shares_any caller groups

unfoldable pub shares_group : User → User → Bool
unfolding shares_any
shares_group caller target =
    if shares_any caller target.groups then true else shares_any caller target.admin_groups

unfoldable pub can_access_user : User → User → Bool
unfolding is_administrator shares_group
can_access_user caller target =
    is_administrator caller || (caller.id == target.id || shares_group caller target)
