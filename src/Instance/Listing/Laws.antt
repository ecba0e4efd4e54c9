-- ===== src/Instance/Listing/Laws.antt =====
-- The lists of deployments and of public instances.
use mathlib.Core.Path.{subst}
use mathlib.Core.List.Perm
use im_manager.Base.{
  String, ◌≡◌, ◌≢◌, refl, sym, ap, ◌∙◌, Bool, false, ◌||◌, Option, none, some, List, [], ◌∷◌, ◌==◌,
  string_eq, map, All, arith, inl, inr, Bool-cases,
}
use im_manager.Base.Dict.{put, has, has-put}
use im_manager.Base.Parting.{IsPart, IsPart-nil, IsPart-keep, IsPart-drop, IsPart-perm}
use im_manager.Base.Sorting.{sort_by}
use im_manager.Base.Lists.{contains}
use im_manager.Base.Sorting.Laws.{
  IsSorted, sort_by-IsSorted, sort_by-perm, sort_by-contains, sort_by-All,
}
use im_manager.Errdef.{ok, >>=-eq-ok, ok-injective}
use im_manager.Model.{Group, Deployment, DeploymentInstance}
use im_manager.Instance.Listing.{
  GroupWithDeployments, GroupsByName, keys, add_groups, groups_of_deployments, deployments_of,
  with_deployments, each_with_deployments, group_deployments, Category, GroupWithPublicInstances,
  Published, PublicInstance, groups_of_instances, category, add_category, categories_of, add_group,
  with_public_instances, each_with_public_instances, group_public_instances,
}

-- Some instance is of the group.
abbrev pub has_instance_in : String → List DeploymentInstance → Bool
has_instance_in name [] = false
has_instance_in name (i ∷ is) = name == i.group_name || has_instance_in name is

-- Some deployment has an instance of the group.
abbrev pub hosts : String → List Deployment → Bool
hosts name [] = false
hosts name (d ∷ ds) = has_instance_in name d.instances || hosts name ds

add_groups-has :
    (g : Option Group) (is : List DeploymentInstance) (m : GroupsByName) (x : String)
    → has (add_groups g is m) x ≡ (has_instance_in x is || has m x)
unfolding add_groups
add_groups-has g [] m x = refl
add_groups-has g (i ∷ is) m x =
    ground (arith, add_groups-has g is (put m i.group_name g) x, has-put m i.group_name x g)

groups_of_deployments-has :
    (ds : List Deployment) (m : GroupsByName) (x : String)
    → has (groups_of_deployments ds m) x ≡ (hosts x ds || has m x)
unfolding groups_of_deployments
groups_of_deployments-has [] m x = refl
groups_of_deployments-has (d ∷ ds) m x = ground (
  arith,
  groups_of_deployments-has ds (add_groups d.group d.instances m) x,
  add_groups-has d.group d.instances m x,
)

contains-keys : (m : GroupsByName) (x : String) → contains (keys m) x ≡ has m x
unfolding contains keys has
contains-keys [] x = refl
contains-keys ((k, v) ∷ m) x = ground (arith, contains-keys m x)

groups-hosts :
    (ds : List Deployment) (name : String) → has (groups_of_deployments ds []) name ≡ hosts name ds
unfolding has
groups-hosts ds name = ground (arith, groups_of_deployments-has ds [] name)

-- The deployments of the group, as often as they are in the list, in the order of their names. The
-- others are of other groups.
abbrev pub IsListOf : List Deployment → GroupWithDeployments → Type 0
IsListOf ds g =
    IsSorted (λ d. d.name) g.deployments
    × IsPart (λ d. d.group_name ≡ g.name) (λ d. d.group_name ≢ g.name) ds g.deployments

deployments_of-IsPart :
    (name : String) (ds : List Deployment)
    → IsPart (λ d. d.group_name ≡ name) (λ d. d.group_name ≢ name) ds (deployments_of name ds)
unfolding deployments_of
deployments_of-IsPart name [] = IsPart-nil (λ d. d.group_name ≡ name) (λ d. d.group_name ≢ name)
deployments_of-IsPart name (d ∷ ds) = elim (Bool-cases (name == d.group_name)) [
  | inl own ↦ rw own (
      IsPart-keep (λ x. x.group_name ≡ name) (λ x. x.group_name ≢ name) d ds
        (deployments_of name ds) (ground arith) (deployments_of-IsPart name ds))
  | inr other ↦ rw other (
      IsPart-drop (λ x. x.group_name ≡ name) (λ x. x.group_name ≢ name) d ds
        (deployments_of name ds) (ground arith) (deployments_of-IsPart name ds))
]

sorted-IsListOf :
    (name : String) (ds : List Deployment)
    → IsPart
        (λ d. d.group_name ≡ name)
        (λ d. d.group_name ≢ name)
        ds
        (sort_by (λ d. d.name) (deployments_of name ds))
sorted-IsListOf name ds =
    let part = deployments_of-IsPart name ds in
    let (rest, _, own, _) = part in
    IsPart-perm (λ d. d.group_name ≡ name) (λ d. d.group_name ≢ name) ds (deployments_of name ds)
      (sort_by (λ d. d.name) (deployments_of name ds))
      (Perm.symm (sort_by-perm (λ (d : Deployment). d.name) (deployments_of name ds)))
      (sort_by-All (λ d. d.name) (λ d. d.group_name ≡ name) (deployments_of name ds) own) part

with_deployments-eq-ok :
    (ds : List Deployment) (name : String) (o : Option Group) (g : GroupWithDeployments)
    → with_deployments ds name o ≡ ok g
    → (g.name ≡ name) × IsListOf ds g
unfolding with_deployments
with_deployments-eq-ok ds name none g e = cc
with_deployments-eq-ok ds name (some group) g e =
    subst (λ (x : GroupWithDeployments). (x.name ≡ name) × IsListOf ds x) (ok-injective e)
      (
        refl,
        (
          sort_by-IsSorted (λ (d : Deployment). d.name) (deployments_of name ds),
          sorted-IsListOf name ds,
        ),
      )

each_with_deployments-eq-ok :
    (ds : List Deployment) (m : GroupsByName) (gs : List GroupWithDeployments)
    → each_with_deployments ds m ≡ ok gs
    → (map (λ g. g.name) gs ≡ keys m) × All (IsListOf ds) gs
unfolding each_with_deployments keys
each_with_deployments-eq-ok ds [] gs e = rw (sym (ok-injective e)) (refl, tt)
each_with_deployments-eq-ok ds ((name, group) ∷ m) gs e =
    let (g, made, e₁) = >>=-eq-ok (with_deployments ds name group) _ e in
    let (rest, more, e₂) = >>=-eq-ok (each_with_deployments ds m) _ e₁ in
    let (named, lists) = with_deployments-eq-ok ds name group g made in
    let (names, all) = each_with_deployments-eq-ok ds m rest more in
    subst
      (λ xs. (map (λ (g : GroupWithDeployments). g.name) xs ≡ name ∷ keys m) × All (IsListOf ds) xs)
      (ok-injective e₂) (cc, (lists, all))

-- When the deployments are grouped, the groups are in the order of their names, each has exactly the
-- deployments whose group has that name, in the order of their own names, and the groups are those of which some
-- deployment has an instance.
pub group_deployments-eq-ok :
    (ds : List Deployment) (gs : List GroupWithDeployments)
    → group_deployments ds ≡ ok gs
    → IsSorted (λ g. g.name) gs
      × All (IsListOf ds) gs
      × ((name : String) → contains (map (λ g. g.name) gs) name ≡ hosts name ds)
unfolding group_deployments
group_deployments-eq-ok ds gs e =
    let m = groups_of_deployments ds [] in
    let (made, each, same) = >>=-eq-ok (each_with_deployments ds m) _ e in
    let (named, all) = each_with_deployments-eq-ok ds m made each in
    subst
      (λ xs.
        IsSorted (λ (g : GroupWithDeployments). g.name) xs
        × All (IsListOf ds) xs
        × ((name : String)
            → contains (map (λ (g : GroupWithDeployments). g.name) xs) name ≡ hosts name ds))
      (ok-injective same)
      (
        sort_by-IsSorted (λ g. g.name) made,
        sort_by-All (λ g. g.name) (IsListOf ds) made all,
        λ name.
            sort_by-contains (λ g. g.name) made name
            ∙ ap (λ ks. contains ks name) named
            ∙ contains-keys m name
            ∙ groups-hosts ds name,
      )

-- There is a category, and none without instances.
abbrev pub IsFilled : List Category → Type 0
IsFilled cs = (cs ≢ []) × All (λ c. c.instances ≢ []) cs

add_category-All :
    (label : String) (is : List PublicInstance) (cs : List Category)
    → All (λ c. c.instances ≢ []) cs
    → All (λ c. c.instances ≢ []) (add_category label is cs)
unfolding add_category
add_category-All label [] cs all = all
add_category-All label (i ∷ is) cs all = ((λ h. cc), all)

categories_of-All :
    (name : String) (ps : List Published) (cs : List Category)
    → categories_of name ps ≡ ok cs
    → All (λ c. c.instances ≢ []) cs
unfolding categories_of
categories_of-All name ps cs e =
    let (stable, _, e₁) = >>=-eq-ok (category name "stable" ps) _ e in
    let (dev, _, e₂) = >>=-eq-ok (category name "dev" ps) _ e₁ in
    let (nightly, _, e₃) = >>=-eq-ok (category name "nightly" ps) _ e₂ in
    subst (All (λ (c : Category). c.instances ≢ [])) (ok-injective e₃) (
      add_category-All "Stable" stable _
        (add_category-All "Under Development" dev _ (add_category-All "Canary" nightly [] tt)))

add_group-All :
    (name description : String) (cs : List Category) (gs : List GroupWithPublicInstances)
    → All (λ c. c.instances ≢ []) cs
    → All (λ g. IsFilled g.categories) gs
    → All (λ g. IsFilled g.categories) (add_group name description cs gs)
unfolding add_group
add_group-All name description [] gs all rest = rest
add_group-All name description (c ∷ cs) gs all rest = (((λ h. cc), all), rest)

with_public_instances-All :
    (ps : List Published) (name description : String) (o : Option Group) (cs : List Category)
    → with_public_instances ps name o ≡ ok (description, cs)
    → All (λ c. c.instances ≢ []) cs
unfolding with_public_instances
with_public_instances-All ps name description none cs e = cc
with_public_instances-All ps name description (some group) cs e =
    let (cs', made, same) = >>=-eq-ok (categories_of name ps) _ e in
    subst (All (λ (c : Category). c.instances ≢ [])) (ap (λ r. r.1) (ok-injective same))
      (categories_of-All name ps cs' made)

each_with_public_instances-All :
    (ps : List Published) (m : GroupsByName) (gs : List GroupWithPublicInstances)
    → each_with_public_instances ps m ≡ ok gs
    → All (λ g. IsFilled g.categories) gs
unfolding each_with_public_instances
each_with_public_instances-All ps [] gs e = rw (sym (ok-injective e)) tt
each_with_public_instances-All ps ((name, group) ∷ m) gs e =
    let ((description, cs), made, e₁) = >>=-eq-ok (with_public_instances ps name group) _ e in
    let (rest, more, same) = >>=-eq-ok (each_with_public_instances ps m) _ e₁ in
    subst (All (λ (g : GroupWithPublicInstances). IsFilled g.categories)) (ok-injective same) (
      add_group-All name description cs rest
        (with_public_instances-All ps name description group cs made)
        (each_with_public_instances-All ps m rest more))

-- No group of public instances is listed without a category, and no category without an instance.
pub group_public_instances-IsFilled :
    (ps : List Published) (gs : List GroupWithPublicInstances)
    → group_public_instances ps ≡ ok gs
    → All (λ g. IsFilled g.categories) gs
unfolding group_public_instances
group_public_instances-IsFilled ps gs e =
    each_with_public_instances-All ps (groups_of_instances ps []) gs e
