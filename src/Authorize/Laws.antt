-- ===== src/Authorize/Laws.antt =====
-- The rules of internal/handler/authorize.go as relations between users and groups.
use im_manager.Base.{
  String, Bool, true, false, ◌≡◌, refl, sym, ◌↔◌, ◌||◌, List, [], ◌∷◌, ◌++◌, arith, string_eq,
  nat_eq,
}
use im_manager.Model.{Group, User, Deployment, Database}
use im_manager.Authorize.{
  is_member_of, is_administrator, can_read_deployment, can_write_deployment, can_access,
  can_access_group, can_access_user, shares_any, shares_group,
}

is_member_of-append :
    (n : String) (xs ys : List Group)
    → is_member_of n (xs ++ ys) ≡ (is_member_of n xs || is_member_of n ys)
unfolding is_member_of
is_member_of-append n [] ys = refl
is_member_of-append n (x ∷ xs) ys = ground (arith, is_member_of-append n xs ys)

-- Some group of the first list has the name of a group of the second.
meets : List Group → List Group → Bool
meets [] ys = false
meets (x ∷ xs) ys = is_member_of x.name ys || meets xs ys

meets-nil : (xs : List Group) → meets xs [] ≡ false
unfolding meets is_member_of
meets-nil [] = refl
meets-nil (x ∷ xs) = meets-nil xs

meets-cons :
    (xs : List Group) (y : Group) (ys : List Group)
    → meets xs (y ∷ ys) ≡ (is_member_of y.name xs || meets xs ys)
unfolding meets is_member_of
meets-cons [] y ys = refl
meets-cons (x ∷ xs) y ys = ground (arith, meets-cons xs y ys)

meets_comm : (xs ys : List Group) → meets xs ys ≡ meets ys xs
unfolding meets
meets_comm [] ys = sym (meets-nil ys)
meets_comm (x ∷ xs) ys = ground (arith, meets-cons ys x xs, meets_comm xs ys)

shares_any-eq-meets :
    (c : User) (gs : List Group) → shares_any c gs ≡ meets gs (c.groups ++ c.admin_groups)
unfolding shares_any meets
shares_any-eq-meets c [] = refl
shares_any-eq-meets c (g ∷ gs) =
    ground (arith, shares_any-eq-meets c gs, is_member_of-append g.name c.groups c.admin_groups)

meets-append : (xs ys zs : List Group) → meets (xs ++ ys) zs ≡ (meets xs zs || meets ys zs)
unfolding meets
meets-append [] ys zs = refl
meets-append (x ∷ xs) ys zs = ground (arith, meets-append xs ys zs)

shares_group-eq-meets :
    (c t : User)
    → shares_group c t ≡ meets (t.groups ++ t.admin_groups) (c.groups ++ c.admin_groups)
unfolding shares_group
shares_group-eq-meets c t = ground (
  arith,
  shares_any-eq-meets c t.groups,
  shares_any-eq-meets c t.admin_groups,
  meets-append t.groups t.admin_groups (c.groups ++ c.admin_groups),
)

-- Whether one user may see another is symmetric between users of whom neither is an administrator.
pub can_access_user_symm :
    (a b : User)
    → is_administrator a ≡ false
    → is_administrator b ≡ false
    → can_access_user a b ≡ can_access_user b a
unfolding can_access_user
can_access_user_symm a b p q = ground (
  arith,
  shares_group-eq-meets a b,
  shares_group-eq-meets b a,
  meets_comm (a.groups ++ a.admin_groups) (b.groups ++ b.admin_groups),
)

-- A user may write a deployment and not read it exactly when the user is no administrator, is
-- listed among the administrators of the deployment's group, and is not listed among its members.
pub can_write_not_read_iff :
    (u : User) (d : Deployment)
    → ((can_write_deployment u d ≡ true) × (can_read_deployment u d ≡ false)) ↔ (
        (is_administrator u ≡ false)
        × (is_member_of d.group_name u.admin_groups ≡ true)
        × (is_member_of d.group_name u.groups ≡ false))
unfolding can_write_deployment can_read_deployment
can_write_not_read_iff u d = ground arith

-- A database may be accessed by exactly those who may access its group, and whoever may read or
-- write a deployment may access the deployment's group.
pub can_access-group :
    (u : User) (db : Database) (d : Deployment)
    → (can_access u db ≡ can_access_group u db.group_name)
      × (can_read_deployment u d ≡ true → can_access_group u d.group_name ≡ true)
      × (can_write_deployment u d ≡ true → can_access_group u d.group_name ≡ true)
unfolding can_access can_access_group can_read_deployment can_write_deployment
can_access-group u db d = (ground arith, ground arith, ground arith)
