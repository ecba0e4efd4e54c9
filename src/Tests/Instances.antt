-- ===== src/Tests/Instances.antt =====
-- The order of a deployment, and the resolution of its parameters, on the sample deployment.
use im_manager.Base.{◌≡◌, refl, List, [], ◌∷◌, map, some, string_eq}
use im_manager.Base.Dict.{get, put, has}
use im_manager.Base.Lists.{get_elem?, modify, contains}
use im_manager.Errdef.{ok, err, join_errors}
use im_manager.Model.{DeploymentInstance}
use im_manager.Graph.Kahn.{kahn_graphs}
use im_manager.Graph.Kahn.Laws.{kahn_graphs-IsLawful}
use im_manager.Stack.Service.{find}
use im_manager.Stack.Parameter.{
  storage_companion_provider, one_of, storage, image_pull_policy, same_site_cookies,
  postgres_hostname_provider, minio_hostname_provider,
}
use im_manager.Instance.Links.{
  validate_no_cycles, add_vertices, link_instances, link_companions, companion_of, link_companion,
  add_edge, link_required, deployment_order, find_instance_by_stack_name, ordered_instances,
}
use im_manager.Instance.Order.Sorted.{IsDeployOrder, ordered_instances-IsDeployOrder}
use im_manager.Instance.Parameters.{
  resolve_parameters, resolve_from, resolve_instance, reject_non_existing_parameters,
  validate_parameters, validate_parameter, add_default_parameter_values, default_parameter,
  resolve_consumed_parameters, consume_required, consume, take_value, is_consumed,
}
use im_manager.Instance.Parameters.Resolving.{Resolved, resolve_parameters-Resolved}
use im_manager.Tests.Samples.{some_stacks, core, store, db, play}

play_order : ordered_instances kahn_graphs some_stacks play ≡ ok (map some (db ∷ store ∷ core ∷ []))
unfolding ordered_instances validate_no_cycles kahn_graphs string_eq add_vertices link_instances
    find get link_companions companion_of storage_companion_provider link_companion add_edge
    link_required deployment_order find_instance_by_stack_name
play_order = refl

ordered_instances-IsDeployOrder_example :
    (l : List DeploymentInstance) × (ordered_instances kahn_graphs some_stacks play
      ≡ ok (map some l))
    × IsDeployOrder kahn_graphs kahn_graphs-IsLawful some_stacks play l
unfolding validate_no_cycles kahn_graphs string_eq add_vertices link_instances find get
    link_companions companion_of storage_companion_provider link_companion add_edge link_required
ordered_instances-IsDeployOrder_example =
    ordered_instances-IsDeployOrder kahn_graphs kahn_graphs-IsLawful some_stacks play _ refl

abbrev resolved_play : List DeploymentInstance
resolved_play = elim (resolve_parameters some_stacks play.instances) [ ok js ↦ js | err _ ↦ [] ]

resolve_parameters-Resolved_example :
    (j : DeploymentInstance) × (get_elem? resolved_play 0 ≡ some j) × Resolved some_stacks core j
unfolding resolve_parameters string_eq resolve_from get_elem? resolve_instance find get
    reject_non_existing_parameters join_errors has validate_parameters add_default_parameter_values
    put validate_parameter storage contains image_pull_policy same_site_cookies
    resolve_consumed_parameters modify find_instance_by_stack_name consume consume_required
    default_parameter is_consumed take_value one_of postgres_hostname_provider
    minio_hostname_provider
resolve_parameters-Resolved_example =
    resolve_parameters-Resolved some_stacks play.instances resolved_play refl 0 core refl
