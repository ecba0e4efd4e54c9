-- ===== src/Event/Filter.antt =====
-- `postFilter`: a user receives the messages of the user's groups that nobody else owns.
use im_manager.Base.{
  ℕ, String, Bool, true, ◌||◌, ◌≡◌, refl, ◌↔◌, Option, none, some, List, [], ◌∷◌, arith, ◌==◌,
  string_eq, nat_eq,
}
use im_manager.Base.Dict.{get, put, has, has-put}
use im_manager.Base.Decimal.{parse_uint}
use im_manager.Errdef.{Error, Result, ok, err}
use im_manager.Model.{Group, User, contains_group, user_is_member_of}
use im_manager.Event.{
  Property, text, other, Properties, Message, GroupSet, insert_groups, map_user_groups, owned_by,
  is_user_message_owner, grouped_in, is_in_message_group, both_hold, post_filter,
}

insert_groups-has :
    (gs : List Group) (m : GroupSet) (x : String)
    → has (insert_groups gs m) x ≡ (contains_group x gs || has m x)
unfolding insert_groups contains_group
insert_groups-has [] m x = refl
insert_groups-has (g ∷ gs) m x =
    ground (arith, insert_groups-has gs (put m g.name tt) x, has-put m g.name x tt)

map_user_groups-has : (u : User) (x : String) → has (map_user_groups u) x ≡ user_is_member_of u x
unfolding map_user_groups user_is_member_of has
map_user_groups-has u x = ground (arith, insert_groups-has u.groups [] x)

-- Nobody owns the message, or the user does.
abbrev pub IsFor : ℕ → Option Property → Type 0
IsFor id none = Unit
IsFor id (some other) = ⊥
IsFor id (some (text owner)) = parse_uint owner ≡ some id

-- The message is of a group that the user is a member of.
abbrev pub IsIn : User → Option Property → Type 0
IsIn u none = ⊥
IsIn u (some other) = ⊥
IsIn u (some (text group)) = user_is_member_of u group ≡ true

owned_by_iff : (id : ℕ) (p : Property) → (owned_by id p ≡ ok true) ↔ IsFor id (some p)
unfolding owned_by
owned_by_iff id other = ground arith
owned_by_iff id (text owner) = owner_iff _ (parse_uint owner)
  where
    owner_iff :
        (e : Error) (o : Option ℕ)
        → (elim o [ none ↦ err e | some n ↦ ok (n == id) ] ≡ ok true) ↔ (o ≡ some id)
    owner_iff e none = ground arith
    owner_iff e (some n) = ground arith

is_owner_iff :
    (id : ℕ) (ps : Properties) → (is_user_message_owner id ps ≡ ok true) ↔ IsFor id (get ps "owner")
unfolding is_user_message_owner
is_owner_iff id ps = owner_iff (get ps "owner")
  where
    owner_iff :
        (o : Option Property)
        → (elim o [ none ↦ ok true | some owner ↦ owned_by id owner ] ≡ ok true) ↔ IsFor id o
    owner_iff none = (λ _. tt, λ _. refl)
    owner_iff (some p) = owned_by_iff id p

grouped_in_iff :
    (u : User) (p : Property) → (grouped_in (map_user_groups u) p ≡ ok true) ↔ IsIn u (some p)
unfolding grouped_in
grouped_in_iff u other = ground arith
grouped_in_iff u (text group) = ground (arith, map_user_groups-has u group)

IsIn-group_iff :
    (u : User) (ps : Properties)
    → (is_in_message_group (map_user_groups u) ps ≡ ok true) ↔ IsIn u (get ps "group")
unfolding is_in_message_group
IsIn-group_iff u ps = group_iff _ (get ps "group")
  where
    group_iff :
        (e : Error) (o : Option Property)
        → (elim o [ none ↦ err e | some group ↦ grouped_in (map_user_groups u) group ] ≡ ok true)
          ↔ IsIn u o
    group_iff e none = ground arith
    group_iff e (some p) = grouped_in_iff u p

both_hold_iff : (r s : Result Bool) → (both_hold r s ≡ true) ↔ ((r ≡ ok true) × (s ≡ ok true))
unfolding both_hold
both_hold_iff (err e) s = ground arith
both_hold_iff (ok a) (err e) = ground arith
both_hold_iff (ok a) (ok b) = ground arith

-- A message passes the filter of a user exactly if its group is one that the user is a member of,
-- and it has no owner or its owner is the user's id.
pub post_filter_iff :
    (u : User) (m : Message)
    → (post_filter u.id (map_user_groups u) m ≡ true) ↔ (
        IsFor u.id (get m.application_properties "owner")
        × IsIn u (get m.application_properties "group"))
unfolding post_filter
post_filter_iff u m =
    let ps = m.application_properties in
    let both =
      both_hold_iff (is_user_message_owner u.id ps) (is_in_message_group (map_user_groups u) ps) in
    (
      (λ h. let (p, q) = both.0 h in ((is_owner_iff u.id ps).0 p, (IsIn-group_iff u ps).0 q)),
      λ (p, q). both.1 ((is_owner_iff u.id ps).1 p, (IsIn-group_iff u ps).1 q),
    )
