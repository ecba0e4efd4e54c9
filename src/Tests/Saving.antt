-- ===== src/Tests/Saving.antt =====
-- An instance that is added to a stored deployment, and one that is deleted.
use im_manager.Base.{String, ◌≡◌, refl, List, [], ◌∷◌, ◌++◌, string_eq, nat_eq}
use im_manager.Base.Dict.{get, put, has}
use im_manager.Base.Lists.{get_elem?, modify, contains}
use im_manager.Errdef.{ok, join_errors}
use im_manager.Model.{Deployment, DeploymentInstance}
use im_manager.Graph.Kahn.{kahn_graphs}
use im_manager.Stack.Service.{find}
use im_manager.Stack.Parameter.{
  storage_companion_provider, one_of, storage, image_pull_policy, same_site_cookies,
  postgres_hostname_provider, minio_hostname_provider,
}
use im_manager.Instance.Links.{
  validate_no_cycles, add_vertices, link_instances, link_companions, companion_of, link_companion,
  add_edge, link_required, find_instance_by_stack_name,
}
use im_manager.Instance.Parameters.{
  reject_consumed_parameters, resolve_parameters, resolve_from, resolve_instance,
  reject_non_existing_parameters, validate_parameters, validate_parameter,
  add_default_parameter_values, default_parameter, resolve_consumed_parameters, consume_required,
  consume, take_value, is_consumed,
}
use im_manager.Action.{pure}
use im_manager.Stack
use im_manager.Stack.{Stack}
use im_manager.Instance.Parameters.Resolving.{Resolved}
use im_manager.Instance.Saving.{
  Repository, names, stacks_by_name, decrypt_deployment, last_resolved, save_instance,
  found_instance, instance_with_id, instances_without, delete_instance,
}
use im_manager.Instance.Saving.Laws.{
  IsDecrypted, AreOthers, save_instance-eq-ok, delete_instance-eq-ok,
}
use mathlib.Core.List.{Memᴰ}
use im_manager.Tests.Samples.{some_stacks, core, store, db, play}

-- A repository of one deployment, which logs what is saved and deleted.
abbrev stored : List DeploymentInstance → Repository (List String)
stored instances = record {
  find_deployment_by_id = λ id. pure (record play { instances = instances });
  decrypt_deployment = λ d by_name. pure d;
  save_instance = λ i stack log. (ok tt, log ++ ("saved" ∷ []));
  destroy_instance = λ i log. (ok tt, log ++ ("destroyed" ∷ []));
  delete_deployment_instance = λ i log. (ok tt, log ++ ("deleted" ∷ []));
}

save_instance-eq-ok_example :
    (reject_consumed_parameters some_stacks core.stack_name (names core.parameters) ≡ ok tt)
    × (saved_play : Deployment) × (d : Deployment) × (g : kahn_graphs.Graph)
    × (j : DeploymentInstance) × (stack : Stack) × (w₀ : List String) × (w₁ : List String)
    × ((stored (store ∷ db ∷ [])).find_deployment_by_id core.deployment_id [] ≡ (ok saved_play, w₀))
    × IsDecrypted (stored (store ∷ db ∷ [])) kahn_graphs some_stacks saved_play w₀ d w₁
    × (validate_no_cycles kahn_graphs some_stacks (d.instances ++ core ∷ []) ≡ ok g)
    × Resolved some_stacks core j
    × (Stack.find some_stacks core.stack_name ≡ ok stack)
    × ((stored (store ∷ db ∷ [])).save_instance j stack w₁ ≡ (ok tt, "saved" ∷ []))
unfolding save_instance names stacks_by_name decrypt_deployment last_resolved
    reject_consumed_parameters nat_eq validate_no_cycles kahn_graphs string_eq add_vertices
    link_instances find get link_companions companion_of storage_companion_provider link_companion
    add_edge link_required resolve_parameters resolve_from get_elem? resolve_instance
    reject_non_existing_parameters join_errors has validate_parameters add_default_parameter_values
    put validate_parameter storage contains image_pull_policy same_site_cookies
    resolve_consumed_parameters modify find_instance_by_stack_name consume consume_required
    default_parameter is_consumed take_value one_of postgres_hostname_provider
    minio_hostname_provider
save_instance-eq-ok_example =
    save_instance-eq-ok (stored (store ∷ db ∷ [])) kahn_graphs some_stacks core [] ("saved" ∷ [])
      refl

delete_instance-eq-ok_example :
    (d : Deployment) × (i : DeploymentInstance) × (others : List DeploymentInstance)
    × (g : kahn_graphs.Graph) × (w₁ : List String) × (w₂ : List String) × ((stored
            (core ∷ store ∷ db ∷ [])).find_deployment_by_id
          3 []
        ≡ (ok d, w₁))
    × Memᴰ i d.instances
    × (i.id ≡ 11)
    × AreOthers 11 d.instances others
    × (validate_no_cycles kahn_graphs some_stacks others ≡ ok g)
    × ((stored (core ∷ store ∷ db ∷ [])).destroy_instance i w₁ ≡ (ok tt, w₂))
    × ((stored (core ∷ store ∷ db ∷ [])).delete_deployment_instance i w₂
        ≡ (ok tt, "destroyed" ∷ "deleted" ∷ []))
unfolding delete_instance found_instance instance_with_id instances_without nat_eq
    validate_no_cycles kahn_graphs string_eq add_vertices link_instances find get link_companions
    companion_of storage_companion_provider link_companion add_edge link_required
delete_instance-eq-ok_example =
    delete_instance-eq-ok (stored (core ∷ store ∷ db ∷ [])) kahn_graphs some_stacks 3 11 []
      ("destroyed" ∷ "deleted" ∷ []) refl
