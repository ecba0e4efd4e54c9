-- ===== src/Tests/Deleting.antt =====
-- A deployment that is deleted.
use mathlib.Core.List.{reverse}
use im_manager.Base.{String, ◌≡◌, refl, List, [], ◌∷◌, ◌++◌, ◌<>◌, string_eq}
use im_manager.Base.Dict.{get}
use im_manager.Errdef.{ok, join_errors}
use im_manager.Model.{DeploymentInstance}
use im_manager.Graph.Kahn.Laws.{kahn_graphs-IsLawful}
use im_manager.Instance.Links.{
  validate_no_cycles, add_vertices, link_instances, link_companions, companion_of, link_companion,
  add_edge, link_required, deployment_order, find_instance_by_stack_name, ordered_instances,
}
use im_manager.Instance.Order.Sorted.{IsDeployOrder}
use im_manager.Instance.Deleting.{
  Calls, collected, destroy_instance, delete_destroyed, delete_each, delete_deployment,
}
use im_manager.Instance.Deleting.Laws.{Deleted, delete_deployment-eq-ok}
use im_manager.Tests.Samples.{some_stacks, whoami, core, play}
use im_manager.Graph.Kahn.{kahn_graphs}
use im_manager.Stack.Service.{find}
use im_manager.Stack.Parameter.{storage_companion_provider}
use im_manager.Action.{pure}

-- Calls that log what is destroyed and deleted. A command is the stack that it destroys.
abbrev calls : Calls (List String) String
calls = record {
  find_deployment_instance_by_id = λ id. pure core;
  find_deployment_by_id = λ id. pure play;
  delete_instance = λ d i. pure tt;
  delete_deployment_instance = λ i log. (ok tt, log ++ (("deleted " <> i.stack_name) ∷ []));
  delete_deployment = λ d log. (ok tt, log ++ ("gone" ∷ []));
  find_group = λ name. pure whoami;
  destroy_command = λ i group. pure i.stack_name;
  execute = λ command group. pure tt;
  kubernetes_service = λ group. pure tt;
  delete_persistent_volume_claim = λ group i. pure tt;
}

delete_deployment-eq-ok_example :
    (l : List DeploymentInstance) × (w : List String) × IsDeployOrder kahn_graphs
      kahn_graphs-IsLawful some_stacks play l
    × Deleted calls [] (reverse l) w
    × (calls.delete_deployment play w
        ≡ (ok tt, "deleted dhis2-core" ∷ "deleted minio" ∷ "deleted dhis2-db" ∷ "gone" ∷ []))
unfolding delete_deployment delete_each delete_destroyed destroy_instance collected join_errors
    ordered_instances deployment_order find_instance_by_stack_name validate_no_cycles kahn_graphs
    string_eq add_vertices link_instances find get link_companions companion_of
    storage_companion_provider link_companion add_edge link_required
delete_deployment-eq-ok_example =
    delete_deployment-eq-ok calls kahn_graphs kahn_graphs-IsLawful some_stacks play _ []
      ("deleted dhis2-core" ∷ "deleted minio" ∷ "deleted dhis2-db" ∷ "gone" ∷ []) refl refl
