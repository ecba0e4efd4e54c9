-- ===== src/Instance/Deleting.antt =====
-- `Delete`, `DeleteDeployment` and `DestroyInstance` of pkg/instance/service.go.
pub mod Laws
use mathlib.Core.List.{reverse}
use im_manager.Base.{ℕ, String, Option, none, some, List, [], ◌∷◌, ◌++◌, if◌then◌else◌}
use im_manager.Errdef.{Error, Result, ok, err, errorf, join_errors, nil_pointer, is_panic}
use im_manager.Action.{Action, pure, lift, ◌>>=◌, ◌>>◌}
use im_manager.Model.{Group, DeploymentInstance, Deployment}
use im_manager.Graph.{GraphLib}
use im_manager.Stack.{Stacks}
use im_manager.Instance.Links.{ordered_instances}

-- The calls of the repository, of the group service, of helmfile and of Kubernetes. A group stands
-- for its cluster.
pub record Calls (W Command : Type 0) : Type 0 where
  pub find_deployment_instance_by_id : ℕ → Action W DeploymentInstance
  pub find_deployment_by_id : ℕ → Action W Deployment
  pub delete_instance : ℕ → ℕ → Action W (Unit {0})
  pub delete_deployment_instance : DeploymentInstance → Action W (Unit {0})
  pub delete_deployment : Deployment → Action W (Unit {0})
  pub find_group : String → Action W Group
  pub destroy_command : DeploymentInstance → Group → Action W Command
  pub execute : Command → Group → Action W (Unit {0})
  pub kubernetes_service : Group → Action W (Unit {0})
  pub delete_persistent_volume_claim : Group → DeploymentInstance → Action W (Unit {0})

-- `errs = errors.Join(errs, …)` if the call fails.
unfoldable pub collected : {W : Type 0} → String → Result (Unit {0}) × W → Result (List Error) × W
collected message (ok _, w) = (ok [], w)
collected message (err e, w) = ((if is_panic e then err e else ok (errorf message ∷ [])), w)

module _ {W Command : Type 0} (C : Calls W Command) where
  unfoldable pub destroy_instance : DeploymentInstance → Action W (Unit {0})
  destroy_instance instance = do
    _ ← C.find_deployment_instance_by_id instance.id
    group ← C.find_group instance.group_name
    command ← C.destroy_command instance group
    C.execute command group
    C.kubernetes_service group
    C.delete_persistent_volume_claim group instance

  -- What follows `DestroyInstance` in the loop: nothing, if that failed.
  unfoldable pub delete_destroyed : DeploymentInstance → List Error → Action W (List Error)
  delete_destroyed instance [] w =
      collected "failed to delete instance(%s) %q: %v" (C.delete_deployment_instance instance w)
  delete_destroyed instance (e ∷ es) w = (ok (e ∷ es), w)

  -- The loop of `DeleteDeployment`, which collects the errors.
  unfoldable pub delete_each : List (Option DeploymentInstance) → Action W (List Error)
  delete_each [] = pure []
  delete_each (none ∷ instances) = lift (err nil_pointer)
  delete_each (some instance ∷ instances) = do
    destroyed ← λ w. collected "failed to destroy instance(%s) %q: %v" (destroy_instance instance w)
    errs ← delete_destroyed instance destroyed
    rest ← delete_each instances
    pure (errs ++ rest)

  module _ (G : GraphLib) (stacks : Stacks) where
    unfoldable pub delete_deployment : Deployment → Action W (Unit {0})
    delete_deployment deployment = do
      instances ← lift (ordered_instances G stacks deployment)
      errs ← delete_each (reverse instances)
      lift (join_errors errs)
      C.delete_deployment deployment

    -- len(deployment.Instances) == 0
    unfoldable pub delete_if_empty : Deployment → List DeploymentInstance → Action W (Unit {0})
    delete_if_empty deployment [] = delete_deployment deployment
    delete_if_empty deployment (i ∷ is) = pure tt

    unfoldable pub delete : ℕ → Action W (Unit {0})
    delete id = do
      instance ← C.find_deployment_instance_by_id id
      C.delete_instance instance.deployment_id instance.id
      deployment ← C.find_deployment_by_id instance.deployment_id
      delete_if_empty deployment deployment.instances
