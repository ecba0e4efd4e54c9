-- ===== src/Group/Listing.antt =====
-- pkg/group/repository.go: the groups that a user who is no administrator is shown.
use mathlib.Core.List.{Memᴰ}
use im_manager.Base.{
  String, ◌≡◌, refl, ap, ◌∙◌, Bool, true, false, ◌&&◌, ◌||◌, not, List, [], ◌∷◌, ◌++◌, ◌==◌,
  string_eq, map, All, All-mono, if◌then◌else◌, inl, inr, Bool-cases, arith,
}
use im_manager.Base.Dict.{Dict, put, has, has-put}
use im_manager.Base.Lists.{contains, Distinct}
use im_manager.Model.{Group, User}
use im_manager.Group.Repository.{only_deployable, by_name, values, find_all_from_user}

abbrev pub group_names : List Group → List String
group_names gs = map (λ g. g.name) gs

abbrev key_names : Dict Group → List String
key_names [] = []
key_names ((name, g) ∷ m) = name ∷ key_names m

-- Each group is stored under its name, and no name twice.
abbrev IsByName : Dict Group → Type 0
IsByName [] = Unit
IsByName ((name, g) ∷ m) = (g.name ≡ name) × (has m name ≡ false) × IsByName m

put-IsByName : (m : Dict Group) (g : Group) → IsByName m → IsByName (put m g.name g)
unfolding put has
put-IsByName [] g h = (refl, refl, tt)
put-IsByName ((name, x) ∷ m) g h = elim (Bool-cases (g.name == name)) [
  | inl e ↦ rw e (ground arith, h.1, h.2)
  | inr n ↦ rw n (h.0, ground (arith, has-put m g.name name g), put-IsByName m g h.2)
]

by_name-IsByName : (gs : List Group) (m : Dict Group) → IsByName m → IsByName (by_name gs m)
unfolding by_name
by_name-IsByName [] m h = h
by_name-IsByName (g ∷ gs) m h = by_name-IsByName gs (put m g.name g) (put-IsByName m g h)

by_name-has :
    (gs : List Group) (m : Dict Group) (x : String)
    → has (by_name gs m) x ≡ (contains (group_names gs) x || has m x)
unfolding by_name contains
by_name-has [] m x = refl
by_name-has (g ∷ gs) m x = ground (arith, by_name-has gs (put m g.name g) x, has-put m g.name x g)

values-contains :
    (m : Dict Group) (x : String) → IsByName m → contains (group_names (values m)) x ≡ has m x
unfolding values contains has
values-contains [] x h = refl
values-contains ((name, g) ∷ m) x h = ground (arith, values-contains m x h.2, h.0)

values-Distinct : (m : Dict Group) → IsByName m → Distinct (group_names (values m))
unfolding values
values-Distinct [] h = tt
values-Distinct ((name, g) ∷ m) h = (
  ap (contains (group_names (values m))) h.0 ∙ values-contains m name h.2 ∙ h.1,
  values-Distinct m h.2,
)

if-All :
    (Q : Group → Type 0) (b : Bool) (xs ys : List Group)
    → (b ≡ true → All Q xs)
    → All Q ys
    → All Q (if b then xs else ys)
if-All Q true xs ys p q = p refl
if-All Q false xs ys p q = q

module _ (P : Group → Type 0) where
  put-All : (m : Dict Group) (g : Group) → P g → All P (values m) → All P (values (put m g.name g))
  unfolding put values
  put-All [] g p h = (p, tt)
  put-All ((name, x) ∷ m) g p h = elim (Bool-cases (g.name == name)) [
    | inl e ↦ rw e (p, h.1)
    | inr n ↦ rw n (h.0, put-All m g p h.1)
  ]

  by_name-All :
      (gs : List Group) (m : Dict Group)
      → All P gs
      → All P (values m)
      → All P (values (by_name gs m))
  unfolding by_name
  by_name-All [] m ps h = h
  by_name-All (g ∷ gs) m ps h = by_name-All gs (put m g.name g) ps.1 (put-All m g ps.0 h)

  only_deployable-All :
      (gs : List Group) → All P gs → All (λ g. P g × (g.deployable ≡ true)) (only_deployable gs)
  unfolding only_deployable
  only_deployable-All [] h = tt
  only_deployable-All (g ∷ gs) h =
      if-All (λ x. P x × (x.deployable ≡ true)) g.deployable (g ∷ only_deployable gs)
        (only_deployable gs) (λ e. ((h.0, e), only_deployable-All gs h.1))
        (only_deployable-All gs h.1)

-- Some group of that name is in the list, which is deployable if that is asked for.
abbrev pub offers : Bool → List Group → String → Bool
offers deployable [] name = false
offers deployable (g ∷ gs) name =
    ((not deployable || g.deployable) && name == g.name) || offers deployable gs name

only_deployable-offers :
    (gs : List Group) (name : String)
    → contains (group_names (only_deployable gs)) name ≡ offers true gs name
unfolding only_deployable contains
only_deployable-offers [] name = refl
only_deployable-offers (g ∷ gs) name = ground (arith, only_deployable-offers gs name)

contains-offers :
    (gs : List Group) (name : String) → contains (group_names gs) name ≡ offers false gs name
unfolding contains
contains-offers [] name = refl
contains-offers (g ∷ gs) name = ground (arith, contains-offers gs name)

Memᴰ-self : (gs : List Group) → All (λ g. Memᴰ g gs) gs
Memᴰ-self [] = tt
Memᴰ-self (g ∷ gs) = (Memᴰ.head refl, All-mono _ _ (λ x m. Memᴰ.tail m) gs (Memᴰ-self gs))

abbrev pub of_user : User → List Group
of_user user = user.groups ++ user.admin_groups

-- A user who is no administrator is shown groups of which no two have the same name, each of which is
-- one that the user is a member or an administrator of, and deployable if that is asked for. The names
-- are exactly those of such groups.
pub find_all_from_user-Distinct :
    (user : User) (deployable : Bool)
    → Distinct (group_names (find_all_from_user user deployable))
      × All
          (λ g. Memᴰ g (of_user user) × (deployable ≡ true → g.deployable ≡ true))
          (find_all_from_user user deployable)
      × ((name : String)
          → contains (group_names (find_all_from_user user deployable)) name
            ≡ offers deployable (of_user user) name)
unfolding find_all_from_user has values
find_all_from_user-Distinct user true =
    let shown = only_deployable (of_user user) in
    let keyed = by_name-IsByName shown [] tt in
    (
      values-Distinct (by_name shown []) keyed,
      by_name-All _ shown []
          (All-mono _ _ (λ g h. (h.0, λ _. h.1)) shown
            (only_deployable-All (λ g. Memᴰ g (of_user user)) (of_user user)
              (Memᴰ-self (of_user user))))
          tt,
      λ name.
          values-contains (by_name shown []) name keyed
          ∙ by_name-has shown [] name
          ∙ ground (arith, only_deployable-offers (of_user user) name),
    )
find_all_from_user-Distinct user false =
    let shown = of_user user in
    let keyed = by_name-IsByName shown [] tt in
    (
      values-Distinct (by_name shown []) keyed,
      by_name-All _ shown [] (All-mono _ _ (λ g h. (h, λ e. absurd (cc e))) shown (Memᴰ-self shown))
          tt,
      λ name.
          values-contains (by_name shown []) name keyed
          ∙ by_name-has shown [] name
          ∙ ground (arith, contains-offers shown name),
    )
