-- ===== src/Instance/Saving/Laws.antt =====
-- When `SaveInstance` and `DeleteInstance` succeed.
use mathlib.Core.Path.{sym, ap, subst}
use mathlib.Core.List.{Memᴰ}
use im_manager.Base.{
  ℕ, ◌≡◌, ◌≢◌, refl, ◌∙◌, none, some, List, [], ◌∷◌, ◌++◌, ◌==◌, nat_eq, arith, inl, inr,
  Bool-cases,
}
use im_manager.Base.Dict.{Dict}
use im_manager.Base.Parting.{IsPart, IsPart-nil, IsPart-keep, IsPart-drop}
use im_manager.Base.Lists.{length, get_elem?}
use im_manager.Errdef.{ok, err, nil_pointer, ok-injective, new_bad_request, errorf}
use im_manager.Action.{on_failure, continued-eq-ok, replaced-eq-ok, lift-eq-ok, replaced-lift-eq-ok}
use im_manager.Model.{DeploymentInstance, Deployment}
use im_manager.Graph.{GraphLib}
use im_manager.Stack
use im_manager.Stack.{Stack, Stacks}
use im_manager.Instance.Links.{validate_no_cycles}
use im_manager.Instance.Parameters.{reject_consumed_parameters, resolve_parameters}
use im_manager.Instance.Parameters.Resolving.{Resolved, resolve_parameters-Resolved}
use im_manager.Instance.Saving.{
  Repository, names, stacks_by_name, decrypt_deployment, last_resolved, save_instance,
  found_instance, instance_with_id, instances_without, delete_instance,
}

get_elem?-last :
    (is : List DeploymentInstance) (i : DeploymentInstance)
    → get_elem? (is ++ i ∷ []) (length is) ≡ some i
unfolding get_elem?
get_elem?-last [] i = refl
get_elem?-last (x ∷ is) i = get_elem?-last is i

last_resolved-eq-ok :
    (js : List DeploymentInstance) (k : ℕ) (i j : DeploymentInstance)
    → last_resolved js k ≡ ok i
    → get_elem? js k ≡ some j
    → j ≡ i
unfolding last_resolved
last_resolved-eq-ok js k i j e f =
    ok-injective (sym (ap (λ o. elim o [ none ↦ err nil_pointer | some t ↦ ok t ]) f) ∙ e)

instance_with_id-Memᴰ :
    (id : ℕ) (is : List DeploymentInstance) (i : DeploymentInstance)
    → found_instance (instance_with_id id is) ≡ ok i
    → Memᴰ i is × (i.id ≡ id)
unfolding instance_with_id found_instance
instance_with_id-Memᴰ id [] i e = cc
instance_with_id-Memᴰ id (x ∷ is) i e = elim (Bool-cases (id == x.id)) [
  | inl here ↦
      let same : x ≡ i = ok-injective (rw (here, instance_with_id, found_instance) at e) in
      (Memᴰ.head (sym same), ap (λ z. z.id) (sym same) ∙ (ground arith))
  | inr later ↦
      let (member, named) = instance_with_id-Memᴰ id is i (rw (later, instance_with_id) at e) in
      (Memᴰ.tail member, named)
]

-- The instances with another id.
abbrev pub AreOthers : ℕ → List DeploymentInstance → List DeploymentInstance → Type 0
AreOthers id = IsPart (λ x. x.id ≢ id) (λ x. x.id ≡ id)

instances_without-AreOthers :
    (id : ℕ) (is : List DeploymentInstance) → AreOthers id is (instances_without id is)
unfolding instances_without
instances_without-AreOthers id [] = IsPart-nil (λ x. x.id ≢ id) (λ x. x.id ≡ id)
instances_without-AreOthers id (x ∷ is) = elim (Bool-cases (id == x.id)) [
  | inl gone ↦ rw gone (
      IsPart-drop (λ x. x.id ≢ id) (λ x. x.id ≡ id) x is (instances_without id is) (ground arith)
        (instances_without-AreOthers id is))
  | inr kept ↦ rw kept (
      IsPart-keep (λ x. x.id ≢ id) (λ x. x.id ≡ id) x is (instances_without id is) (ground arith)
        (instances_without-AreOthers id is))
]

module _ {W : Type 0} (R : Repository W) (G : GraphLib) (stacks : Stacks) where
  -- The deployment that is decrypted, with the stacks of its instances.
  abbrev pub IsDecrypted : Deployment → W → Deployment → W → Type 0
  IsDecrypted stored w d w' =
      (by_name : Dict Stack) × (stacks_by_name R G stacks stored.instances [] ≡ ok by_name)
      × (R.decrypt_deployment stored by_name w ≡ (ok d, w'))

  pub decrypt_deployment-IsDecrypted :
      (stored d : Deployment) (w w' : W)
      → decrypt_deployment R G stacks stored w ≡ (ok d, w')
      → IsDecrypted stored w d w'
  unfolding decrypt_deployment
  decrypt_deployment-IsDecrypted stored d w w' e =
      lift-eq-ok (stacks_by_name R G stacks stored.instances []) w _ e

  -- When `DeleteInstance` succeeds, the deployment has an instance with that id, its instances with
  -- other ids validate, and that instance was first destroyed and then deleted.
  pub delete_instance-eq-ok :
      (deployment_id id : ℕ) (w w' : W)
      → delete_instance R G stacks deployment_id id w ≡ (ok tt, w')
      → (d : Deployment) × (i : DeploymentInstance) × (others : List DeploymentInstance)
        × (g : G.Graph) × (w₁ : W) × (w₂ : W) × (R.find_deployment_by_id deployment_id w
            ≡ (ok d, w₁))
        × Memᴰ i d.instances
        × (i.id ≡ id)
        × AreOthers id d.instances others
        × (validate_no_cycles G stacks others ≡ ok g)
        × (R.destroy_instance i w₁ ≡ (ok tt, w₂))
        × (R.delete_deployment_instance i w₂ ≡ (ok tt, w'))
  unfolding delete_instance
  delete_instance-eq-ok deployment_id id w w' e =
      let (d, w₁, found, e₁) = continued-eq-ok (R.find_deployment_by_id deployment_id w) _ e in
      let (i, there, e₂) = lift-eq-ok (found_instance (instance_with_id id d.instances)) w₁ _ e₁ in
      let (g, valid, e₃) =
        replaced-lift-eq-ok (λ _. new_bad_request "failed to delete instance: %v")
          (validate_no_cycles G stacks (instances_without id d.instances)) w₁ _ e₂ in
      let (_, w₂, destroyed, deleted) =
        continued-eq-ok
          (on_failure (R.destroy_instance i)
            (λ _. errorf "failed to destroy instance %d in deployment %d: %v") w₁)
          _ e₃ in
      let (member, named) = instance_with_id-Memᴰ id d.instances i there in
      (
        d,
        i,
        instances_without id d.instances,
        g,
        w₁,
        w₂,
        found,
        member,
        named,
        instances_without-AreOthers id d.instances,
        valid,
        replaced-eq-ok _ (R.destroy_instance i w₁) destroyed,
        deleted,
      )

  -- When `SaveInstance` succeeds, the user supplied no consumed parameter, the instances of the
  -- deployment with the id that the new instance has, as it was read and decrypted, validate together
  -- with the new one, and what is saved is the new instance with its parameters resolved.
  pub save_instance-eq-ok :
      (i : DeploymentInstance) (w w' : W)
      → save_instance R G stacks i w ≡ (ok tt, w')
      → (reject_consumed_parameters stacks i.stack_name (names i.parameters) ≡ ok tt)
        × (stored : Deployment) × (d : Deployment) × (g : G.Graph) × (j : DeploymentInstance)
        × (stack : Stack) × (w₀ : W) × (w₁ : W) × (R.find_deployment_by_id i.deployment_id w
            ≡ (ok stored, w₀))
        × IsDecrypted stored w₀ d w₁
        × (validate_no_cycles G stacks (d.instances ++ i ∷ []) ≡ ok g)
        × Resolved stacks i j
        × (Stack.find stacks i.stack_name ≡ ok stack)
        × (R.save_instance j stack w₁ ≡ (ok tt, w'))
  unfolding save_instance
  save_instance-eq-ok i w w' e =
      let (_, allowed, e₁) =
        lift-eq-ok (reject_consumed_parameters stacks i.stack_name (names i.parameters)) w _ e in
      let (stored, w₀, read, e₂) =
        continued-eq-ok (R.find_deployment_by_id i.deployment_id w) _ e₁ in
      let (d, w₁, clear, e₃) = continued-eq-ok (decrypt_deployment R G stacks stored w₀) _ e₂ in
      let (g, valid, e₄) =
        replaced-lift-eq-ok (λ _. new_bad_request "failed to validate instance: %v")
          (validate_no_cycles G stacks (d.instances ++ i ∷ [])) w₁ _ e₃ in
      let (js, done', e₅) =
        replaced-lift-eq-ok (λ _. new_bad_request "failed to resolve parameters: %v")
          (resolve_parameters stacks (d.instances ++ i ∷ [])) w₁ _ e₄ in
      let (stack, known, e₆) = lift-eq-ok (Stack.find stacks i.stack_name) w₁ _ e₅ in
      let (j, last, saved) = lift-eq-ok (last_resolved js (length d.instances)) w₁ _ e₆ in
      let (j', at, resolved) =
        resolve_parameters-Resolved stacks (d.instances ++ i ∷ []) js done' (length d.instances) i
          (get_elem?-last d.instances i) in
      let same : j' ≡ j = last_resolved-eq-ok js (length d.instances) j j' last at in
      (
        allowed,
        stored,
        d,
        g,
        j,
        stack,
        w₀,
        w₁,
        read,
        decrypt_deployment-IsDecrypted stored d w₀ w₁ clear,
        valid,
        subst (Resolved stacks i) same resolved,
        known,
        saved,
      )
