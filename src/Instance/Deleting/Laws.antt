-- ===== src/Instance/Deleting/Laws.antt =====
-- `DeleteDeployment` on success.
use mathlib.Core.Path.{sym, ap, subst}
use mathlib.Core.List.{reverse, reverse-cons, map-append, append-eq-nil_iff}
use im_manager.Base.{
  String, ◌≡◌, ◌≢◌, refl, if◌then◌else◌, Bool-cases, ◌∙◌, some, List, [], ◌∷◌, ◌++◌, map, inl, inr,
}
use im_manager.Errdef.{
  Error, Result, ok, err, errorf, is_panic, join_errors, join_errors-eq-ok, ok-injective,
}
use im_manager.Action.{continued-eq-ok, lift-eq-ok}
use im_manager.Model.{DeploymentInstance, Deployment}
use im_manager.Graph.{GraphLib, IsLawful}
use im_manager.Stack.{Stacks}
use im_manager.Instance.Links.{validate_no_cycles, ordered_instances}
use im_manager.Instance.Order.Sorted.{IsDeployOrder, ordered_instances-IsDeployOrder}
use im_manager.Instance.Deleting.{
  Calls, collected, destroy_instance, delete_destroyed, delete_each, delete_deployment,
}

some-errors : (m : String) (x : Error) → (if is_panic x then err x else ok (errorf m ∷ [])) ≢ ok []
some-errors m x e = elim (Bool-cases (is_panic x)) [
  | inl yes' ↦ cc (rw yes' at e)
  | inr no' ↦ cc (rw no' at e)
]

map-reverse : (l : List DeploymentInstance) → map some (reverse l) ≡ reverse (map some l)
map-reverse [] = refl
map-reverse (i ∷ l) =
    ap (map some) (reverse-cons i l)
    ∙ map-append some (reverse l) (i ∷ [])
    ∙ ap (λ t. t ++ some i ∷ []) (map-reverse l)
    ∙ sym (reverse-cons (some i) (map some l))

collected-eq-nil :
    {W : Type 0} (m : String) (r : Result (Unit {0}) × W) (w' : W)
    → collected m r ≡ (ok [], w')
    → r ≡ (ok tt, w')
unfolding collected
collected-eq-nil m (ok _, w) w' e = ap (λ s. (ok tt, s.1)) e
collected-eq-nil m (err x, w) w' e = absurd (some-errors m x (ap (λ r. r.0) e))

module _ {W Command : Type 0} (C : Calls W Command) where
  -- One instance after the other is destroyed, and then deleted.
  pub data Deleted : W → List DeploymentInstance → W → Type 0 where
    nothing : {w : W} → Deleted w [] w
    next :
        {w w' w'' w''' : W} {i : DeploymentInstance} {is : List DeploymentInstance}
        → destroy_instance C i w ≡ (ok tt, w')
        → C.delete_deployment_instance i w' ≡ (ok tt, w'')
        → Deleted w'' is w'''
        → Deleted w (i ∷ is) w'''

  delete_destroyed-eq-nil :
      (i : DeploymentInstance) (es : List Error) (w w' : W)
      → delete_destroyed C i es w ≡ (ok [], w')
      → (es ≡ []) × (C.delete_deployment_instance i w ≡ (ok tt, w'))
  unfolding delete_destroyed
  delete_destroyed-eq-nil i [] w w' e = (refl, collected-eq-nil _ _ w' e)
  delete_destroyed-eq-nil i (x ∷ es) w w' e = cc

  delete_each-eq-nil :
      (is : List DeploymentInstance) (w w' : W)
      → delete_each C (map some is) w ≡ (ok [], w')
      → Deleted w is w'
  unfolding delete_each
  delete_each-eq-nil [] w w' e = subst (Deleted w []) (ap (λ r. r.1) e) nothing
  delete_each-eq-nil (i ∷ is) w w' e =
      let (ds, w₁, destroyed, e₁) =
        continued-eq-ok (collected "failed to destroy instance(%s) %q: %v" (destroy_instance C i w))
          _ e in
      let (es, w₂, deleted, e₂) = continued-eq-ok (delete_destroyed C i ds w₁) _ e₁ in
      let (rest, w₃, others, e₃) = continued-eq-ok (delete_each C (map some is) w₂) _ e₂ in
      let (none₁, none₂) = append-eq-nil_iff.0 (ok-injective (ap (λ r. r.0) e₃)) in
      let (none₀, gone) =
        delete_destroyed-eq-nil i ds w₁ w₂
          (subst (λ t. delete_destroyed C i ds w₁ ≡ (ok t, w₂)) none₁ deleted) in
      let first = collected-eq-nil _ (destroy_instance C i w) w₁ (
        subst
          (λ t.
            collected "failed to destroy instance(%s) %q: %v" (destroy_instance C i w) ≡ (ok t, w₁))
          none₀ destroyed) in
      next first gone (
        subst (Deleted w₂ is) (ap (λ r. r.1) e₃) (
          delete_each-eq-nil is w₂ w₃
            (subst (λ t. delete_each C (map some is) w₂ ≡ (ok t, w₃)) none₂ others)))

module _ {W Command : Type 0} (C : Calls W Command) (G : GraphLib) (L : IsLawful G)
    (stacks : Stacks) where
  -- When `DeleteDeployment` succeeds for a deployment whose instances validate, all of them were
  -- destroyed and deleted, in the reverse of an order in which each comes after whatever it needs,
  -- and the deployment was deleted at the end.
  pub delete_deployment-eq-ok :
      (d : Deployment) (g : G.Graph) (w w' : W)
      → validate_no_cycles G stacks d.instances ≡ ok g
      → delete_deployment C G stacks d w ≡ (ok tt, w')
      → (l : List DeploymentInstance) × (w₁ : W) × IsDeployOrder G L stacks d l
        × Deleted C w (reverse l) w₁
        × (C.delete_deployment d w₁ ≡ (ok tt, w'))
  unfolding delete_deployment
  delete_deployment-eq-ok d g w w' valid e =
      let (l, found, ordered) = ordered_instances-IsDeployOrder G L stacks d g valid in
      let (is, same, e₁) = lift-eq-ok (ordered_instances G stacks d) w _ e in
      let list : map some l ≡ is = ok-injective (sym found ∙ same) in
      let (es, w₁, deleted, e₂) = continued-eq-ok (delete_each C (reverse is) w) _ e₁ in
      let (u, clean, e₃) = lift-eq-ok (join_errors es) w₁ _ e₂ in
      let none' = join_errors-eq-ok es clean in
      (
        l,
        w₁,
        ordered,
        delete_each-eq-nil C (reverse l) w w₁ (
            subst (λ t. delete_each C t w ≡ (ok [], w₁))
              (sym (ap reverse list) ∙ sym (map-reverse l))
              (subst (λ t. delete_each C (reverse is) w ≡ (ok t, w₁)) none' deleted)),
        e₃,
      )
