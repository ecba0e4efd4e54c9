-- ===== src/Deployment/Updating.antt =====
-- pkg/deployment/service.go: `UpdateInstance`.
use im_manager.Base.{
  ℕ, String, ◌≡◌, sym, ap, ◌∙◌, Bool, Option, some, List, [], ◌∷◌, map, ◌==◌, nat_eq, arith,
  Bool-cases, inl, inr,
}
use mathlib.Core.List.{Memᴰ}
use im_manager.Errdef.{ok, errorf, ok-injective}
use im_manager.Action.{
  Action, pure, lift, ◌>>=◌, ◌>>◌, on_failure, continued-eq-ok, replaced-eq-ok, lift-eq-ok,
}
use im_manager.Model.{Deployment, DeploymentInstance, DeploymentInstanceParameters}
use im_manager.Deployment.{Services, find_instance_by_id, deploy_instance}

-- `UpdateInstanceParameters` of the instance service.
abbrev pub UpdateParameters : Type 0 → Type 0
UpdateParameters W =
    ℕ → ℕ → DeploymentInstanceParameters → Option Bool → Action W DeploymentInstance

find_instance_by_id-eq-ok :
    (is : List DeploymentInstance) (id : ℕ) (i : DeploymentInstance)
    → find_instance_by_id is id ≡ ok i
    → Memᴰ i is × (i.id ≡ id)
unfolding find_instance_by_id
find_instance_by_id-eq-ok [] id i e = cc
find_instance_by_id-eq-ok (x ∷ is) id i e = elim (Bool-cases (x.id == id)) [
  | inl h ↦
      let same : x ≡ i = cc (rw (h, find_instance_by_id) at e) in
      (Memᴰ.head (sym same), ap (λ z. z.id) (sym same) ∙ (ground arith))
  | inr h ↦
      let rest = find_instance_by_id-eq-ok is id i (rw (h, find_instance_by_id) at e) in
      (Memᴰ.tail rest.0, rest.1)
]

module _ {W : Type 0} (S : Services W) (hostname : String) (U : UpdateParameters W) where
  unfoldable pub update_instance :
      String → ℕ → ℕ → DeploymentInstanceParameters → Option Bool → Action W DeploymentInstance
  update_instance token deployment_id instance_id parameters public = do
    updated ← U deployment_id instance_id parameters public
    deployment ← S.find_decrypted_deployment deployment_id
    instance ← lift (find_instance_by_id deployment.instances instance_id)
    refreshed ← S.refresh_access_token token
    on_failure
        (deploy_instance S hostname refreshed (some instance) deployment.ttl
          (map some deployment.instances))
        (λ _. errorf "failed to deploy updated instance: %v")
    pure updated

  -- When UpdateInstance succeeds, the parameters were updated first, and the result is what that
  -- returned. The deployment as it then is has the instance with that id, and it was deployed with the
  -- refreshed token, for the time to live of the deployment.
  pub update_instance-eq-ok :
      (token : String) (d i : ℕ) (ps : DeploymentInstanceParameters) (public : Option Bool)
      (updated : DeploymentInstance) (w w' : W)
      → update_instance token d i ps public w ≡ (ok updated, w')
      → (deployment : Deployment) × (instance : DeploymentInstance) × (refreshed : String) × (w₁ w₂
          w₃ : W)
        × (U d i ps public w ≡ (ok updated, w₁))
        × (S.find_decrypted_deployment d w₁ ≡ (ok deployment, w₂))
        × Memᴰ instance deployment.instances
        × (instance.id ≡ i)
        × (S.refresh_access_token token w₂ ≡ (ok refreshed, w₃))
        × (deploy_instance S hostname refreshed
              (some instance)
              deployment.ttl
              (map some deployment.instances)
              w₃
            ≡ (ok tt, w'))
  unfolding update_instance
  update_instance-eq-ok token d i ps public updated w w' e =
      let (u, w₁, changed, e1) = continued-eq-ok (U d i ps public w) _ e in
      let (deployment, w₂, found, e2) = continued-eq-ok (S.find_decrypted_deployment d w₁) _ e1 in
      let (instance, there, e3) = lift-eq-ok (find_instance_by_id deployment.instances i) w₂ _ e2 in
      let (refreshed, w₃, fresh, e4) = continued-eq-ok (S.refresh_access_token token w₂) _ e3 in
      let (_, w₄, deployed, e5) =
        continued-eq-ok
          (on_failure
            (deploy_instance S hostname refreshed (some instance) deployment.ttl
              (map some deployment.instances))
            (λ _. errorf "failed to deploy updated instance: %v") w₃)
          _ e4 in
      let (member, named) = find_instance_by_id-eq-ok deployment.instances i instance there in
      (
        deployment,
        instance,
        refreshed,
        w₁,
        w₂,
        w₃,
        changed ∙ ap (λ x. (ok x, w₁)) (ok-injective (ap (λ p. p.0) e5)),
        found,
        member,
        named,
        fresh,
        replaced-eq-ok _ _ deployed ∙ ap (λ x. (ok tt, x)) (ap (λ p. p.1) e5),
      )
