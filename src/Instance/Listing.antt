-- ===== src/Instance/Listing.antt =====
-- pkg/instance/service.go: `FindDeployments` and `FindPublicInstances`, the lists by group.
pub mod Laws
use im_manager.Base.{
  ℕ, String, ◌<>◌, Bool, true, false, ◌&&◌, Option, none, some, List, [], ◌∷◌, ◌++◌, ◌==◌,
  string_eq, if◌then◌else◌, map,
}
use im_manager.Base.Dict.{Dict, put}
use im_manager.Base.Lists.{contains}
use im_manager.Base.Sorting.{sort_by}
use im_manager.Base.Text.{has_prefix}
use im_manager.Errdef.{Error, Result, ok, err, errorf, nil_pointer, ◌>>=◌}
use im_manager.Action.{Action}
use im_manager.Model.{Group, User, Deployment, DeploymentInstance, administrator_group_name}

pub record GroupWithDeployments : Type 0 where
  pub name : String
  pub hostname : String
  pub deployments : List Deployment

abbrev pub GroupsByName : Type 0
GroupsByName = Dict (Option Group)

-- maps.Keys
unfoldable pub keys : GroupsByName → List String
keys [] = []
keys ((name, _) ∷ m) = name ∷ keys m

-- groupsByName[instance.GroupName] = deployment.Group
unfoldable pub add_groups : Option Group → List DeploymentInstance → GroupsByName → GroupsByName
add_groups group [] m = m
add_groups group (i ∷ is) m = add_groups group is (put m i.group_name group)

unfoldable pub groups_of_deployments : List Deployment → GroupsByName → GroupsByName
groups_of_deployments [] m = m
groups_of_deployments (d ∷ ds) m = groups_of_deployments ds (add_groups d.group d.instances m)

unfoldable pub deployments_of : String → List Deployment → List Deployment
deployments_of name [] = []
deployments_of name (d ∷ ds) =
    let rest = deployments_of name ds in if name == d.group_name then d ∷ rest else rest

-- One round of the loop over the names: the group's host name is read through a pointer.
unfoldable pub with_deployments :
    List Deployment → String → Option Group → Result GroupWithDeployments
with_deployments ds name none = err nil_pointer
with_deployments ds name (some group) = ok (record {
  name = name;
  hostname = group.hostname;
  deployments = sort_by (λ d. d.name) (deployments_of name ds);
})

unfoldable pub each_with_deployments :
    List Deployment → GroupsByName → Result (List GroupWithDeployments)
each_with_deployments ds [] = ok []
each_with_deployments ds ((name, group) ∷ m) = do
  g ← with_deployments ds name group
  gs ← each_with_deployments ds m
  ok (g ∷ gs)

unfoldable pub group_deployments : List Deployment → Result (List GroupWithDeployments)
group_deployments ds = do
  gs ← each_with_deployments ds (groups_of_deployments ds [])
  ok (sort_by (λ g. g.name) gs)

-- groupsByName[group.Name] = group
unfoldable pub groups_by_name : List Group → GroupsByName → GroupsByName
groups_by_name [] m = m
groups_by_name (g ∷ gs) m = groups_by_name gs (put m g.name (some g))

unfoldable pub unless_empty : List Deployment → Result (List GroupWithDeployments)
unless_empty [] = ok []
unless_empty (d ∷ ds) = group_deployments (d ∷ ds)

-- `Find` of gorm, for the deployments of all groups or of some.
unfoldable pub find_rows :
    {W : Type 0}
    → (Option (List String) → Action W (List Deployment))
    → List String
    → Action W (List Deployment)
find_rows find group_names =
    find (if contains group_names administrator_group_name then none else some group_names)

unfoldable pub find_deployments :
    {W : Type 0}
    → (Option (List String) → Action W (List Deployment))
    → User
    → Action W (List GroupWithDeployments)
find_deployments find user w =
    let (found, w') =
      find_rows find (keys (groups_by_name (user.groups ++ user.admin_groups) [])) w in
    (found >>= unless_empty, w')

pub record PublicInstance : Type 0 where
  pub name : String
  pub description : String
  pub hostname : String
  pub updated_at : ℕ

pub record Category : Type 0 where
  pub label : String
  pub instances : List PublicInstance

pub record GroupWithPublicInstances : Type 0 where
  pub name : String
  pub description : String
  pub categories : List Category

-- An instance, its deployment, and when it was updated.
pub record Published : Type 0 where
  pub instance' : DeploymentInstance
  pub deployment : Deployment
  pub updated_at : ℕ

unfoldable pub groups_of_instances : List Published → GroupsByName → GroupsByName
groups_of_instances [] m = m
groups_of_instances (p ∷ ps) m =
    groups_of_instances ps (put m p.instance'.group_name p.instance'.group)

-- instance.GroupName == name && instance.StackName == "dhis2-core"
unfoldable pub is_listed : String → Published → Bool
is_listed name p = p.instance'.group_name == name && p.instance'.stack_name == "dhis2-core"

unfoldable pub public_instance : Published → Group → PublicInstance
public_instance p group = record {
  name = p.instance'.name;
  description = p.deployment.description;
  hostname = "https://" <> (group.hostname <> ("/" <> p.instance'.name));
  updated_at = p.updated_at;
}

-- The instances of a group with this prefix.
unfoldable pub category : String → String → List Published → Result (List PublicInstance)
category name prefix' [] = ok []
category name prefix' (p ∷ ps) = do
  rest ← category name prefix' ps
  (if is_listed name p
      then elim p.instance'.group [
        | none ↦ err nil_pointer
        | some group ↦
            ok
              (if has_prefix p.instance'.name prefix' then public_instance p group ∷ rest else rest)
      ]
      else ok rest)

-- `append`, if there are instances.
unfoldable pub add_category : String → List PublicInstance → List Category → List Category
add_category label [] categories = categories
add_category label (i ∷ is) categories = record { label = label; instances = i ∷ is } ∷ categories

unfoldable pub categories_of : String → List Published → Result (List Category)
categories_of name ps = do
  stable ← category name "stable" ps
  dev ← category name "dev" ps
  nightly ← category name "nightly" ps
  ok (
      add_category "Stable" stable
        (add_category "Under Development" dev (add_category "Canary" nightly [])))

unfoldable pub add_group :
    String → String → List Category → List GroupWithPublicInstances → List GroupWithPublicInstances
add_group name description [] gs = gs
add_group name description (c ∷ cs) gs =
    record { name = name; description = description; categories = c ∷ cs } ∷ gs

unfoldable pub with_public_instances :
    List Published → String → Option Group → Result (String × List Category)
with_public_instances ps name none = err nil_pointer
with_public_instances ps name (some group) = do
  cs ← categories_of name ps
  ok (group.description, cs)

unfoldable pub each_with_public_instances :
    List Published → GroupsByName → Result (List GroupWithPublicInstances)
each_with_public_instances ps [] = ok []
each_with_public_instances ps ((name, group) ∷ m) = do
  (description, cs) ← with_public_instances ps name group
  gs ← each_with_public_instances ps m
  ok (add_group name description cs gs)

unfoldable pub group_public_instances : List Published → Result (List GroupWithPublicInstances)
group_public_instances ps = each_with_public_instances ps (groups_of_instances ps [])

unfoldable pub find_public_instances :
    {W : Type 0} → Action W (List Published) → Action W (List GroupWithPublicInstances)
find_public_instances find w = let (found, w') = find w in (found >>= group_public_instances, w')
