-- ===== src/Instance/Handler/Hiding.antt =====
-- pkg/instance/handler.go: what a reply shows of the parameters.
use im_manager.Base.{◌≡◌, refl, String, true, List, [], ◌∷◌, inl, inr, All, Bool-cases}
use mathlib.Core.Path.{subst}
use im_manager.Errdef.{ok, >>=-eq-ok, ok-injective}
use im_manager.Model.{
  Deployment, DeploymentInstance, DeploymentInstanceParameter, DeploymentInstanceParameters,
}
use im_manager.Stack.{Stack, Stacks, find}
use im_manager.Instance.Encryption.{is_sensitive}
use im_manager.Instance.Listing.{GroupWithDeployments}
use im_manager.Instance.Handler.Stripping.{
  strip_parameter, strip_parameters, strip_instance, strip_instances, strip_deployment,
  strip_deployments, strip_groups,
}

-- Of a sensitive parameter, only asterisks.
abbrev pub IsHidden : Stack → String × DeploymentInstanceParameter → Type 0
IsHidden stack (_, p) = is_sensitive stack p.parameter_name ≡ true → p.value ≡ "***"

-- The stack of the instance exists, and its sensitive parameters are hidden.
abbrev pub HidesInstance : Stacks → DeploymentInstance → Type 0
HidesInstance stacks instance =
    (stack : Stack) × (find stacks instance.stack_name ≡ ok stack)
    × All (IsHidden stack) instance.parameters

abbrev pub Hides : Stacks → Deployment → Type 0
Hides stacks deployment = All (HidesInstance stacks) deployment.instances

strip_parameter-IsHidden :
    (stack : Stack) (index : String) (p : DeploymentInstanceParameter)
    → IsHidden stack (index, strip_parameter stack p)
unfolding strip_parameter
strip_parameter-IsHidden stack index p = elim (Bool-cases (is_sensitive stack p.parameter_name)) [
  | inl h ↦ λ _. rw (strip_parameter, h) refl
  | inr h ↦ λ s. absurd (cc (rw (strip_parameter, h) at s))
]

strip_parameters-IsHidden :
    (stack : Stack) (ps : DeploymentInstanceParameters)
    → All (IsHidden stack) (strip_parameters stack ps)
unfolding strip_parameters
strip_parameters-IsHidden stack [] = tt
strip_parameters-IsHidden stack ((index, p) ∷ ps) =
    (strip_parameter-IsHidden stack index p, strip_parameters-IsHidden stack ps)

module _ (stacks : Stacks) where
  pub strip_instance-Hides :
      (i j : DeploymentInstance) → strip_instance stacks i ≡ ok j → HidesInstance stacks j
  unfolding strip_instance
  strip_instance-Hides i j e =
      let (stack, found, done) = >>=-eq-ok (find stacks i.stack_name) _ e in
      subst (HidesInstance stacks) (ok-injective done)
        (stack, found, strip_parameters-IsHidden stack i.parameters)

  strip_instances-Hide :
      (is js : List DeploymentInstance)
      → strip_instances stacks is ≡ ok js
      → All (HidesInstance stacks) js
  unfolding strip_instances
  strip_instances-Hide [] js e = subst (All (HidesInstance stacks)) (ok-injective e) tt
  strip_instances-Hide (i ∷ is) js e =
      let (j, first, e1) = >>=-eq-ok (strip_instance stacks i) _ e in
      let (rest, others, done) = >>=-eq-ok (strip_instances stacks is) _ e1 in
      subst (All (HidesInstance stacks)) (ok-injective done)
        (strip_instance-Hides i j first, strip_instances-Hide is rest others)

  pub strip_deployment-Hides :
      (d d' : Deployment) → strip_deployment stacks d ≡ ok d' → Hides stacks d'
  unfolding strip_deployment
  strip_deployment-Hides d d' e =
      let (is, stripped, done) = >>=-eq-ok (strip_instances stacks d.instances) _ e in
      subst (Hides stacks) (ok-injective done) (strip_instances-Hide d.instances is stripped)

  strip_deployments-Hide :
      (ds ds' : List Deployment) → strip_deployments stacks ds ≡ ok ds' → All (Hides stacks) ds'
  unfolding strip_deployments
  strip_deployments-Hide [] ds' e = subst (All (Hides stacks)) (ok-injective e) tt
  strip_deployments-Hide (d ∷ ds) ds' e =
      let (d', first, e1) = >>=-eq-ok (strip_deployment stacks d) _ e in
      let (rest, others, done) = >>=-eq-ok (strip_deployments stacks ds) _ e1 in
      subst (All (Hides stacks)) (ok-injective done)
        (strip_deployment-Hides d d' first, strip_deployments-Hide ds rest others)

  abbrev pub HidesGroup : GroupWithDeployments → Type 0
  HidesGroup g = All (Hides stacks) g.deployments

  pub strip_groups-Hide :
      (gs gs' : List GroupWithDeployments) → strip_groups stacks gs ≡ ok gs' → All HidesGroup gs'
  unfolding strip_groups
  strip_groups-Hide [] gs' e = subst (All HidesGroup) (ok-injective e) tt
  strip_groups-Hide (g ∷ gs) gs' e =
      let (ds, first, e1) = >>=-eq-ok (strip_deployments stacks g.deployments) _ e in
      let (rest, others, done) = >>=-eq-ok (strip_groups stacks gs) _ e1 in
      subst (All HidesGroup) (ok-injective done)
        (strip_deployments-Hide g.deployments ds first, strip_groups-Hide gs rest others)
