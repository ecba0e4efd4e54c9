-- ===== src/Instance/Handler/Changes.antt =====
-- pkg/instance/handler.go: the requests that change something, all together.
use im_manager.Base.{ℕ, ◌≡◌, refl, nat_eq}
use im_manager.Authorize.{can_write_deployment}
use im_manager.Stack.{Stacks}
use im_manager.Instance.Handler.{Services}
use im_manager.Instance.Handler.Deployments.{
  SaveDeploymentRequest, deployment_of, deploy_deployment, save_deployment, update_deployment,
  delete_deployment,
}
use im_manager.Instance.Handler.Instances.{
  save_instance, update_instance, delete_deployment_instance, pause, reset, resume, restart,
}
use im_manager.Instance.Handler.Permission.{
  Change, deploying, saving, updating, deleting, saving_instance, updating_instance,
  deleting_instance, pausing, resetting, resuming, restarting, AreLookups, WritesDeployment,
  WritesInstance, WritesGroup, chained-writable_deployment-keeps, chained-writable_instance-keeps,
}
use im_manager.Web.{
  Request, Outcome, Handling, Reply, chained, reply, data_binder, get_user_from_context,
  get_token_from_request, ◌>>=◌,
}
use im_manager.Web.Laws.{
  chained-keeps, chained-served-keeps, chained-check-keeps, chained-require-keeps,
  chained-require_or_abort-keeps, chained-get_path_parameter-keeps, data_binder-eq-ok,
  get_user_from_context-eq-ok, get_path_parameter-eq-went_on,
}

module _ {W : Type 0} (S : Services W) (stacks : Stacks) (default_ttl : ℕ) where
  -- The handler of a request, of whose reply only the status is kept.
  unfoldable pub handled : Change → Handling W ℕ
  handled (deploying r) = do a ← deploy_deployment S stacks r; reply a.status
  handled (saving r) = do a ← save_deployment S stacks default_ttl r; reply a.status
  handled (updating r) = do a ← update_deployment S stacks r; reply a.status
  handled (deleting r) = do a ← delete_deployment S stacks r; reply a.status
  handled (saving_instance r) = do a ← save_instance S stacks r; reply a.status
  handled (updating_instance r) = do a ← update_instance S stacks r; reply a.status
  handled (deleting_instance r) = do a ← delete_deployment_instance S r; reply a.status
  handled (pausing r) = do a ← pause S r; reply a.status
  handled (resetting r) = do a ← reset S r; reply a.status
  handled (resuming r) = do a ← resume S r; reply a.status
  handled (restarting r) = do a ← restart S r; reply a.status

  -- What the user in the context may write, for each request.
  unfoldable pub MayMake : Change → W → Type 0
  MayMake (deploying r) = WritesDeployment S r S.find_decrypted_deployment_by_id
  MayMake (saving r) = WritesGroup S default_ttl r
  MayMake (updating r) = WritesDeployment S r S.find_deployment_by_id
  MayMake (deleting r) = WritesDeployment S r S.find_decrypted_deployment_by_id
  MayMake (saving_instance r) = WritesDeployment S r S.find_deployment_by_id
  MayMake (updating_instance r) = WritesDeployment S r S.find_deployment_by_id
  MayMake (deleting_instance r) = WritesDeployment S r S.find_deployment_by_id
  MayMake (pausing r) = WritesInstance S r S.find_deployment_instance_by_id
  MayMake (resetting r) = WritesInstance S r S.find_decrypted_deployment_instance_by_id
  MayMake (resuming r) = WritesInstance S r S.find_decrypted_deployment_instance_by_id
  MayMake (restarting r) = WritesInstance S r S.find_deployment_instance_by_id

  replied-keeps :
      {A : Type 0} (w : W) (m : Outcome (Reply A) × W)
      → m.1 ≡ w
      → (chained m (λ a. reply a.status)).1 ≡ w
  replied-keeps w m kept = chained-keeps w m _ kept (λ _ _. refl)

  save_deployment-keeps :
      (r : Request SaveDeploymentRequest) (w : W)
      → AreLookups S
      → ¬ WritesGroup S default_ttl r w
      → (save_deployment S stacks default_ttl r w).1 ≡ w
  unfolding save_deployment
  save_deployment-keeps r w lookups denied =
      chained-check-keeps w (data_binder r) _ (λ request bound.
        chained-served-keeps w (S.find_group request.group w) _ (lookups.group_kept request.group w)
          (λ group found. chained-require-keeps w _ _ group.deployable (λ deployable.
            chained-check-keeps w (get_user_from_context r) _ (λ user there.
              chained-require-keeps w _ _
                (can_write_deployment user (deployment_of request default_ttl user))
                (λ may. absurd (
                  denied (
                    user,
                    request,
                    group,
                    get_user_from_context-eq-ok r user there,
                    data_binder-eq-ok r request bound,
                    found,
                    deployable,
                    may,
                  )))))))

  -- A request that changes something leaves the world as it is unless there is a user in the context who
  -- may write the deployment that the path names, or, for a new deployment, its group, which must be
  -- deployable. It is assumed that lookups change nothing.
  pub handled-keeps : (c : Change) (w : W) → AreLookups S → ¬ MayMake c w → (handled c w).1 ≡ w
  unfolding handled MayMake deploy_deployment update_deployment delete_deployment save_instance
      update_instance delete_deployment_instance pause reset resume restart
  handled-keeps (deploying r) w lookups denied = replied-keeps w (deploy_deployment S stacks r w) (
      chained-get_path_parameter-keeps w r "id" _ (λ id named.
        chained-writable_deployment-keeps S r w S.find_decrypted_deployment_by_id id _
          (lookups.decrypted_kept id w) named denied))
  handled-keeps (saving r) w lookups denied =
      replied-keeps w (save_deployment S stacks default_ttl r w)
        (save_deployment-keeps r w lookups denied)
  handled-keeps (updating r) w lookups denied = replied-keeps w (update_deployment S stacks r w) (
      chained-get_path_parameter-keeps w r "id" _ (λ id named.
        chained-check-keeps w (data_binder r) _ (λ _ _.
          chained-check-keeps w (get_token_from_request r) _ (λ _ _.
            chained-writable_deployment-keeps S r w S.find_deployment_by_id id _
              (lookups.deployment_kept id w) named denied))))
  handled-keeps (deleting r) w lookups denied = replied-keeps w (delete_deployment S stacks r w) (
      chained-get_path_parameter-keeps w r "id" _ (λ id named.
        chained-writable_deployment-keeps S r w S.find_decrypted_deployment_by_id id _
          (lookups.decrypted_kept id w) named denied))
  handled-keeps (saving_instance r) w lookups denied =
      replied-keeps w (save_instance S stacks r w) (
        chained-check-keeps w (data_binder r) _ (λ _ _.
          chained-get_path_parameter-keeps w r "id" _ (λ id named.
            chained-check-keeps w (get_user_from_context r) _ (λ user there.
              chained-served-keeps w (S.find_deployment_by_id id w) _ (lookups.deployment_kept id w)
                (λ d found.
                  chained-require_or_abort-keeps w _ _ (can_write_deployment user d) 401 (λ may.
                    absurd (
                      denied (
                        user,
                        id,
                        d,
                        get_user_from_context-eq-ok r user there,
                        get_path_parameter-eq-went_on r "id" w w id named,
                        found,
                        may,
                      ))))))))
  handled-keeps (updating_instance r) w lookups denied =
      replied-keeps w (update_instance S stacks r w) (
        chained-get_path_parameter-keeps w r "id" _ (λ id named.
          chained-get_path_parameter-keeps w r "instanceId" _ (λ _ _.
            chained-check-keeps w (data_binder r) _ (λ _ _.
              chained-writable_deployment-keeps S r w S.find_deployment_by_id id _
                (lookups.deployment_kept id w) named denied))))
  handled-keeps (deleting_instance r) w lookups denied =
      replied-keeps w (delete_deployment_instance S r w) (
        chained-get_path_parameter-keeps w r "id" _ (λ id named.
          chained-get_path_parameter-keeps w r "instanceId" _ (λ _ _.
            chained-writable_deployment-keeps S r w S.find_deployment_by_id id _
              (lookups.deployment_kept id w) named denied)))
  handled-keeps (pausing r) w lookups denied = replied-keeps w (pause S r w) (
      chained-get_path_parameter-keeps w r "id" _ (λ id named.
        chained-writable_instance-keeps S r w S.find_deployment_instance_by_id id _ lookups
          (lookups.instance_kept id w) named denied))
  handled-keeps (resetting r) w lookups denied = replied-keeps w (reset S r w) (
      chained-get_path_parameter-keeps w r "id" _ (λ id named.
        chained-check-keeps w (get_token_from_request r) _ (λ _ _.
          chained-writable_instance-keeps S r w S.find_decrypted_deployment_instance_by_id id _
            lookups (lookups.decrypted_instance_kept id w) named denied)))
  handled-keeps (resuming r) w lookups denied = replied-keeps w (resume S r w) (
      chained-get_path_parameter-keeps w r "id" _ (λ id named.
        chained-writable_instance-keeps S r w S.find_decrypted_deployment_instance_by_id id _
          lookups (lookups.decrypted_instance_kept id w) named denied))
  handled-keeps (restarting r) w lookups denied = replied-keeps w (restart S r w) (
      chained-get_path_parameter-keeps w r "id" _ (λ id named.
        chained-writable_instance-keeps S r w S.find_deployment_instance_by_id id _ lookups
          (lookups.instance_kept id w) named denied))
