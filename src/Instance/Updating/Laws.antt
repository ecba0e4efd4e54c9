-- ===== src/Instance/Updating/Laws.antt =====
-- When `UpdateInstanceParameters` succeeds.
use mathlib.Core.Path.{subst}
use im_manager.Base.{
  ℕ, ◌≡◌, ◌≢◌, ◌⊎◌, inl, inr, refl, sym, ap, Bool, Option, none, some, List, [], ◌∷◌, ◌++◌, ◌==◌,
  nat_eq, string_eq, arith, All, Bool-cases,
}
use im_manager.Base.Lists.{Distinct, get_elem?, modify, get_elem?-modify_self}
use im_manager.Errdef.{ok, new_bad_request}
use im_manager.Action.{continued-eq-ok, lift-eq-ok, replaced-lift-eq-ok}
use im_manager.Model.{DeploymentInstance, Deployment, DeploymentInstanceParameters}
use im_manager.Graph.{GraphLib}
use im_manager.Stack
use im_manager.Stack.{Stack, Stacks}
use im_manager.Instance.Links.{validate_no_cycles}
use im_manager.Instance.Parameters.{reject_consumed_parameters, resolve_parameters}
use im_manager.Instance.Parameters.Resolving.{Resolved, resolve_parameters-Resolved}
use im_manager.Instance.Saving.{Repository, names, decrypt_deployment}
use im_manager.Instance.Saving.Laws.{IsDecrypted, decrypt_deployment-IsDecrypted}
use im_manager.Instance.Updating.Supplying.{AreSupplied, supply-AreSupplied}
use im_manager.Instance.Updating.{
  InstanceRows, find_decrypted_deployment_instance_by_id, reject_other_deployment, set_public,
  supply, position_of, resolved_at, update_instance_parameters,
}

reject_other_deployment-eq-ok :
    (id : ℕ) (i : DeploymentInstance) → reject_other_deployment id i ≡ ok tt → i.deployment_id ≡ id
unfolding reject_other_deployment
reject_other_deployment-eq-ok id i e = ground arith

-- The instance with the parameters that the user supplied.
abbrev pub with_supplied :
    DeploymentInstance → DeploymentInstanceParameters → Option Bool → DeploymentInstance
with_supplied i parameters public = record (set_public public i) {
  parameters = supply i.parameters parameters;
}

resolved_at-Resolved :
    (stacks : Stacks) (i x : DeploymentInstance) (is js : List DeploymentInstance) (k : ℕ)
    → resolve_parameters stacks (modify is k (λ _. i)) ≡ ok js
    → get_elem? is k ≡ some x
    → Resolved stacks i (resolved_at i js k)
unfolding resolved_at
resolved_at-Resolved stacks i x is js k e there =
    let (j, at, resolved) =
      resolve_parameters-Resolved stacks (modify is k (λ _. i)) js e k i
        (get_elem?-modify_self is k (λ _. i) there) in
    subst (Resolved stacks i) (sym (ap (λ o. elim o [ none ↦ i | some t ↦ t ]) at)) resolved

set_public-stack_name :
    (public : Option Bool) (i : DeploymentInstance)
    → (set_public public i).stack_name ≡ i.stack_name
unfolding set_public
set_public-stack_name none i = refl
set_public-stack_name (some b) i = refl

-- The list with the instance in the place of the first with that id, if there is one, which has `P`.
abbrev pub IsUpdated :
    ℕ → DeploymentInstance → List DeploymentInstance → List DeploymentInstance → Type 0 → Type 0
IsUpdated id i is changed P =
    ((before : List DeploymentInstance) × (x : DeploymentInstance) × (after : List
        DeploymentInstance)
      × (is ≡ before ++ x ∷ after)
      × All (λ y. y.id ≢ id) before
      × (x.id ≡ id)
      × (changed ≡ before ++ i ∷ after)
      × P)
    ⊎ (All (λ y. y.id ≢ id) is × (changed ≡ is))

position_of-IsUpdated :
    (id : ℕ) (i : DeploymentInstance) (is : List DeploymentInstance) (P : Type 0)
    → ((x : DeploymentInstance) → get_elem? is (position_of id is) ≡ some x → P)
    → IsUpdated id i is (modify is (position_of id is) (λ _. i)) P
unfolding position_of modify get_elem?
position_of-IsUpdated id i [] P p = inr (tt, refl)
position_of-IsUpdated id i (y ∷ is) P p = elim (Bool-cases (y.id == id)) [
  | inl here ↦
      rw here (inl ([], y, is, refl, tt, ground arith, refl, p y (rw (here, position_of) refl)))
  | inr later ↦
      rw later
        (elim (position_of-IsUpdated id i is P
          (λ x e. p x (rw (later, position_of, get_elem?) e))) [
            | inl (before, x, after, here, others, named, there, q) ↦
                inl (y ∷ before, x, after, cc, (ground arith, others), named, cc, q)
            | inr (others, same) ↦ inr ((ground arith, others), cc)
          ])
]

module _ {W : Type 0} (R : Repository W) (I : InstanceRows W) (G : GraphLib) (stacks : Stacks) where
  -- When `UpdateInstanceParameters` succeeds for parameters with distinct names, the instance, as it
  -- was read and decrypted, is one of that deployment, and the user supplied no consumed parameter. The
  -- instances of the deployment, as it was read and decrypted, validate with the updated instance in
  -- the place of the first one with that id. What is saved is the updated instance, with its parameters
  -- resolved, if the deployment has an instance with that id.
  pub update_instance_parameters-eq-ok :
      (deployment_id id : ℕ) (parameters : DeploymentInstanceParameters) (public : Option Bool)
      (j : DeploymentInstance) (w w' : W)
      → Distinct (names parameters)
      → update_instance_parameters R I G stacks deployment_id id parameters public w ≡ (ok j, w')
      → (row i : DeploymentInstance) × (known stack : Stack) × (stored d : Deployment)
        × (changed : List DeploymentInstance) × (g : G.Graph) × (u : DeploymentInstance) × (v₀ v₁ v₂
            v : W)
        × (I.find_deployment_instance_by_id id w ≡ (ok row, v₀))
        × (Stack.find stacks row.stack_name ≡ ok known)
        × (I.decrypt_deployment_instance row known v₀ ≡ (ok i, v₁))
        × (i.deployment_id ≡ deployment_id)
        × (reject_consumed_parameters stacks i.stack_name (names parameters) ≡ ok tt)
        × (R.find_deployment_by_id deployment_id v₁ ≡ (ok stored, v₂))
        × IsDecrypted R G stacks stored v₂ d v
        × AreSupplied i.parameters parameters (with_supplied i parameters public).parameters
        × IsUpdated id
            (with_supplied i parameters public)
            d.instances
            changed
            (Resolved stacks (with_supplied i parameters public) u)
        × (validate_no_cycles G stacks changed ≡ ok g)
        × (Stack.find stacks i.stack_name ≡ ok stack)
        × (I.save_instance u stack v ≡ (ok j, w'))
  unfolding update_instance_parameters find_decrypted_deployment_instance_by_id
  update_instance_parameters-eq-ok deployment_id id parameters public j w w' unique e =
      let (i, v₁, read, e₁) =
        continued-eq-ok (find_decrypted_deployment_instance_by_id I stacks id w) _ e in
      let (row, v₀, at, r₁) = continued-eq-ok (I.find_deployment_instance_by_id id w) _ read in
      let (known, named, clear) = lift-eq-ok (Stack.find stacks row.stack_name) v₀ _ r₁ in
      let (_, own, e₂) = lift-eq-ok (reject_other_deployment deployment_id i) v₁ _ e₁ in
      let (_, allowed, e₃) =
        lift-eq-ok (reject_consumed_parameters stacks i.stack_name (names parameters)) v₁ _ e₂ in
      let (stored, v₂, there, e₄) =
        continued-eq-ok (R.find_deployment_by_id deployment_id v₁) _ e₃ in
      let (d, v, open', e₅) = continued-eq-ok (decrypt_deployment R G stacks stored v₂) _ e₄ in
      let k = position_of id d.instances in
      let new = with_supplied i parameters public in
      let changed = modify d.instances k (λ _. new) in
      let (g, valid, e₆) =
        replaced-lift-eq-ok (λ _. new_bad_request "failed to validate instance: %v")
          (validate_no_cycles G stacks changed) v _ e₅ in
      let (js, resolved, e₇) =
        replaced-lift-eq-ok (λ _. new_bad_request "failed to resolve parameters: %v")
          (resolve_parameters stacks changed) v _ e₆ in
      let (stack, kind, saved) = lift-eq-ok (Stack.find stacks new.stack_name) v _ e₇ in
      (
        row,
        i,
        known,
        stack,
        stored,
        d,
        changed,
        g,
        resolved_at new js k,
        v₀,
        v₁,
        v₂,
        v,
        at,
        named,
        clear,
        reject_other_deployment-eq-ok deployment_id i own,
        allowed,
        there,
        decrypt_deployment-IsDecrypted R G stacks stored d v₂ v open',
        supply-AreSupplied i.parameters parameters unique,
        position_of-IsUpdated id new d.instances (Resolved stacks new (resolved_at new js k))
            (λ x here. resolved_at-Resolved stacks new x d.instances js k resolved here),
        valid,
        subst (λ z. Stack.find stacks z ≡ ok stack) (set_public-stack_name public i) kind,
        saved,
      )
