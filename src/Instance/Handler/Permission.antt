-- ===== src/Instance/Handler/Permission.antt =====
-- pkg/instance/handler.go: who may have something changed.
use im_manager.Base.{ℕ, ◌≡◌, refl, sym, ap, ◌∙◌, String, true, some}
use mathlib.Core.Path.{subst}
use im_manager.Errdef.{ok}
use im_manager.Action.{Action}
use im_manager.Model.{User, Group, Deployment, DeploymentInstance}
use im_manager.Authorize.{can_write_deployment}
use im_manager.Instance.Handler.{Services, writable_deployment, writable_instance}
use im_manager.Instance.Handler.Deployments.{
  SaveDeploymentRequest, UpdateDeploymentRequest, deployment_of,
}
use im_manager.Instance.Handler.Instances.{SaveInstanceRequest, UpdateInstanceRequest}
use im_manager.Web.{
  Request, went_on, Handling, chained, get_user_from_context, get_path_parameter, parse_uint_32,
  value_of,
}
use im_manager.Web.Laws.{
  chained-keeps, chained-served-keeps, chained-check-keeps, chained-require-keeps,
  chained-require_or_abort-keeps, chained-served-eq-went_on, chained-check-eq-went_on,
  chained-require-eq-went_on, chained-require_or_abort-eq-went_on, get_user_from_context-eq-ok,
  get_path_parameter-eq-went_on,
}

-- The requests that change something. Those without a body have any request.
pub data Change : Type 0 where
  deploying : Request (Unit {0}) → Change
  saving : Request SaveDeploymentRequest → Change
  updating : Request UpdateDeploymentRequest → Change
  deleting : Request (Unit {0}) → Change
  saving_instance : Request SaveInstanceRequest → Change
  updating_instance : Request UpdateInstanceRequest → Change
  deleting_instance : Request (Unit {0}) → Change
  pausing : Request (Unit {0}) → Change
  resetting : Request (Unit {0}) → Change
  resuming : Request (Unit {0}) → Change
  restarting : Request (Unit {0}) → Change

-- The calls that only look something up leave the world as it is.
pub record AreLookups {W : Type 0} (S : Services W) : Type 0 where
  pub group_kept : (name : String) (w : W) → (S.find_group name w).1 ≡ w
  pub deployment_kept : (id : ℕ) (w : W) → (S.find_deployment_by_id id w).1 ≡ w
  pub decrypted_kept : (id : ℕ) (w : W) → (S.find_decrypted_deployment_by_id id w).1 ≡ w
  pub instance_kept : (id : ℕ) (w : W) → (S.find_deployment_instance_by_id id w).1 ≡ w
  pub decrypted_instance_kept :
      (id : ℕ) (w : W) → (S.find_decrypted_deployment_instance_by_id id w).1 ≡ w

module _ {W : Type 0} (S : Services W) where
  -- The user in the context may write the deployment that a lookup finds by the id in the path.
  abbrev pub WritesDeployment : {B : Type 0} → Request B → (ℕ → Action W Deployment) → W → Type 0
  WritesDeployment r find w =
      (user : User) × (id : ℕ) × (deployment : Deployment) × (r.user ≡ some user)
      × (parse_uint_32 (value_of r.params "id") ≡ some id)
      × (find id w ≡ (ok deployment, w))
      × (can_write_deployment user deployment ≡ true)

  -- The same for the deployment of the instance that a lookup finds.
  abbrev pub WritesInstance :
      {B : Type 0} → Request B → (ℕ → Action W DeploymentInstance) → W → Type 0
  WritesInstance r find w =
      (user : User) × (id : ℕ) × (instance : DeploymentInstance) × (deployment : Deployment)
      × (r.user ≡ some user)
      × (parse_uint_32 (value_of r.params "id") ≡ some id)
      × (find id w ≡ (ok instance, w))
      × (S.find_deployment_by_id instance.deployment_id w ≡ (ok deployment, w))
      × (can_write_deployment user deployment ≡ true)

  -- The user in the context may write a new deployment in the group, which is deployable.
  abbrev pub WritesGroup : ℕ → Request SaveDeploymentRequest → W → Type 0
  WritesGroup default_ttl r w =
      (user : User) × (request : SaveDeploymentRequest) × (group : Group) × (r.user ≡ some user)
      × (r.should_bind ≡ ok request)
      × (S.find_group request.group w ≡ (ok group, w))
      × (group.deployable ≡ true)
      × (can_write_deployment user (deployment_of request default_ttl user) ≡ true)

  module _ {B : Type 0} (r : Request B) (w : W) where
    writable_deployment-keeps :
        (find : ℕ → Action W Deployment) (id : ℕ)
        → (find id w).1 ≡ w
        → (writable_deployment S r find id w).1 ≡ w
    unfolding writable_deployment
    writable_deployment-keeps find id kept =
        chained-check-keeps w (get_user_from_context r) _ (λ user _.
          chained-served-keeps w (find id w) _ kept
            (λ d _. chained-require-keeps w _ _ (can_write_deployment user d) (λ _. refl)))

    writable_deployment-Writes :
        (find : ℕ → Action W Deployment) (id : ℕ) (deployment : Deployment)
        → (find id w).1 ≡ w
        → get_path_parameter r "id" w ≡ (went_on id, w)
        → writable_deployment S r find id w ≡ (went_on deployment, w)
        → WritesDeployment r find w
    unfolding writable_deployment
    writable_deployment-Writes find id deployment kept named e =
        let (user, there, e1) = chained-check-eq-went_on (get_user_from_context r) w _ e in
        let (d, v, found, e2) = chained-served-eq-went_on (find id w) _ e1 in
        let (may, _) = chained-require-eq-went_on _ v _ (can_write_deployment user d) e2 in
        (
          user,
          id,
          d,
          get_user_from_context-eq-ok r user there,
          get_path_parameter-eq-went_on r "id" w w id named,
          found ∙ ap (λ x. (ok d, x)) (sym (ap (λ p. p.1) found) ∙ kept),
          may,
        )

    writable_instance-keeps :
        (find : ℕ → Action W DeploymentInstance) (id : ℕ)
        → AreLookups S
        → (find id w).1 ≡ w
        → (writable_instance S r find id w).1 ≡ w
    unfolding writable_instance
    writable_instance-keeps find id lookups kept =
        chained-check-keeps w (get_user_from_context r) _ (λ user _.
          chained-served-keeps w (find id w) _ kept (λ i _.
            chained-served-keeps w (S.find_deployment_by_id i.deployment_id w) _
              (lookups.deployment_kept i.deployment_id w)
              (λ d _.
                chained-require_or_abort-keeps w _ _ (can_write_deployment user d) 401
                  (λ _. refl))))

    writable_instance-Writes :
        (find : ℕ → Action W DeploymentInstance) (id : ℕ) (found : DeploymentInstance × Deployment)
        → AreLookups S
        → (find id w).1 ≡ w
        → get_path_parameter r "id" w ≡ (went_on id, w)
        → writable_instance S r find id w ≡ (went_on found, w)
        → WritesInstance r find w
    unfolding writable_instance
    writable_instance-Writes find id found lookups kept named e =
        let (user, there, e1) = chained-check-eq-went_on (get_user_from_context r) w _ e in
        let (i, v, first, e2) = chained-served-eq-went_on (find id w) _ e1 in
        let at = sym (ap (λ p. p.1) first) ∙ kept in
        let first' = first ∙ ap (λ x. (ok i, x)) at in
        let (d, u, second, e3) =
          chained-served-eq-went_on (S.find_deployment_by_id i.deployment_id v) _ e2 in
        let second' =
          subst (λ x. S.find_deployment_by_id i.deployment_id x ≡ (ok d, u)) at second in
        let (may, _) =
          chained-require_or_abort-eq-went_on _ u _ (can_write_deployment user d) 401 e3 in
        (
          user,
          id,
          i,
          d,
          get_user_from_context-eq-ok r user there,
          get_path_parameter-eq-went_on r "id" w w id named,
          first',
          second'
              ∙ ap (λ x. (ok d, x))
                  (sym (ap (λ p. p.1) second') ∙ lookups.deployment_kept i.deployment_id w),
          may,
        )

    -- What follows the test is not reached by a user who may not write.
    pub chained-writable_deployment-keeps :
        {A : Type 0} (find : ℕ → Action W Deployment) (id : ℕ) (rest : Deployment → Handling W A)
        → (find id w).1 ≡ w
        → get_path_parameter r "id" w ≡ (went_on id, w)
        → ¬ WritesDeployment r find w
        → (chained (writable_deployment S r find id w) rest).1 ≡ w
    chained-writable_deployment-keeps find id rest kept named denied =
        chained-keeps w (writable_deployment S r find id w) rest
          (writable_deployment-keeps find id kept)
          (λ d e. absurd (denied (writable_deployment-Writes find id d kept named e)))

    pub chained-writable_instance-keeps :
        {A : Type 0} (find : ℕ → Action W DeploymentInstance) (id : ℕ)
        (rest : DeploymentInstance × Deployment → Handling W A)
        → AreLookups S
        → (find id w).1 ≡ w
        → get_path_parameter r "id" w ≡ (went_on id, w)
        → ¬ WritesInstance r find w
        → (chained (writable_instance S r find id w) rest).1 ≡ w
    chained-writable_instance-keeps find id rest lookups kept named denied =
        chained-keeps w (writable_instance S r find id w) rest
          (writable_instance-keeps find id lookups kept)
          (λ x e. absurd (denied (writable_instance-Writes find id x lookups kept named e)))
