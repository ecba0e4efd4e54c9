-- ===== src/Tests/Users.antt =====
-- Two users of one group, a deployment and a database of it.
use im_manager.Base.{◌≡◌, refl, true, false, ◌↔◌, string_eq, nat_eq}
use im_manager.Authorize.{
  is_member_of, is_administrator, can_read_deployment, can_write_deployment, can_access,
  can_access_group, can_access_user,
}
use im_manager.Authorize.Laws.{can_access_user_symm, can_write_not_read_iff, can_access-group}
use im_manager.Tests.Samples.{play, member, keeper, dump}

can_access_user_symm_example : can_access_user member keeper ≡ can_access_user keeper member
unfolding is_administrator is_member_of string_eq
can_access_user_symm_example = can_access_user_symm member keeper refl refl

can_write_not_read_iff_example :
    ((can_write_deployment keeper play ≡ true) × (can_read_deployment keeper play ≡ false)) ↔ (
      (is_administrator keeper ≡ false)
      × (is_member_of play.group_name keeper.admin_groups ≡ true)
      × (is_member_of play.group_name keeper.groups ≡ false))
can_write_not_read_iff_example = can_write_not_read_iff keeper play

can_access-group_example :
    (can_access member dump ≡ can_access_group member dump.group_name)
    × (can_read_deployment member play ≡ true → can_access_group member play.group_name ≡ true)
    × (can_write_deployment member play ≡ true → can_access_group member play.group_name ≡ true)
can_access-group_example = can_access-group member dump play
