-- ===== src/Tests/Listings.antt =====
-- The lists of deployments and of public instances, and the status of an instance.
use im_manager.Base.Text.{has_prefix}
use im_manager.Base.Sorting.{sort_by, text_leb}
use im_manager.Base.Dict.{put}
use im_manager.Base.{
  ℕ, String, ◌≡◌, ◌↔◌, refl, true, false, [], ◌∷◌, ◌==◌, string_eq, nat_eq, map, All, if◌then◌else◌,
}
use im_manager.Base.Lists.{contains}
use im_manager.Base.Sorting.Laws.{IsSorted}
use im_manager.Errdef.{Result, ok, err, new_not_found}
use im_manager.Model.{Deployment}
use im_manager.Instance.Listing.{
  GroupWithDeployments, group_deployments, Published, GroupWithPublicInstances,
  group_public_instances, each_with_deployments, groups_of_deployments, add_groups,
  with_deployments, deployments_of, each_with_public_instances, groups_of_instances,
  with_public_instances, categories_of, category, is_listed, add_group, add_category,
  public_instance,
}
use im_manager.Instance.Listing.Laws.{IsListOf, hosts, group_deployments-eq-ok}
use im_manager.Instance.Status.{Pod, pod_running, IsUp, running, get_status, get_status-running_iff}
use im_manager.Tests.Samples.{core, store, play}

abbrev again : Deployment
again = record play { id = 4; name = "again"; instances = store ∷ [] }

abbrev grouped : GroupWithDeployments
grouped = record {
  name = "whoami";
  hostname = "whoami.example.org";
  deployments = again ∷ play ∷ [];
}

grouped_two : group_deployments (play ∷ again ∷ []) ≡ ok (grouped ∷ [])
unfolding group_deployments each_with_deployments groups_of_deployments add_groups put string_eq
    with_deployments sort_by deployments_of text_leb nat_eq
grouped_two = refl

group_deployments-eq-ok_example :
    IsSorted (λ (g : GroupWithDeployments). g.name) (grouped ∷ [])
    × All (IsListOf (play ∷ again ∷ [])) (grouped ∷ [])
    × ((name : String)
        → contains (map (λ (g : GroupWithDeployments). g.name) (grouped ∷ [])) name
          ≡ hosts name (play ∷ again ∷ []))
group_deployments-eq-ok_example =
    group_deployments-eq-ok (play ∷ again ∷ []) (grouped ∷ []) grouped_two

abbrev published : Published
published = record {
  instance' = record core { name = "dev-2-41"; public = true };
  deployment = play;
  updated_at = 9;
}

abbrev listed : GroupWithPublicInstances
listed = record {
  name = "whoami";
  description = "";
  categories =
      record {
        label = "Under Development";
        instances =
            record {
              name = "dev-2-41";
              description = "";
              hostname = "https://whoami.example.org/dev-2-41";
              updated_at = 9;
            }
            ∷ [];
      }
      ∷ [];
}

listed_one : group_public_instances (published ∷ []) ≡ ok (listed ∷ [])
unfolding group_public_instances each_with_public_instances groups_of_instances put
    with_public_instances categories_of category is_listed string_eq add_group add_category
    has_prefix nat_eq public_instance
listed_one = refl

abbrev up : Pod
up = record {
  phase = pod_running;
  init_container_statuses = [];
  container_statuses = [];
  conditions = false ∷ false ∷ [];
}

abbrev pod_of : ℕ → ℕ → Result Pod
pod_of k id = if id == 11 then ok up else err (new_not_found "pod not found")

get_status-running_iff_example :
    (get_status (λ i. ok 1) pod_of core ≡ ok running)
    ↔ ((ks : ℕ) × (pod : Pod) × (ok 1 ≡ ok ks) × (pod_of ks 11 ≡ ok pod) × IsUp pod)
get_status-running_iff_example = get_status-running_iff (λ i. ok 1) pod_of core
