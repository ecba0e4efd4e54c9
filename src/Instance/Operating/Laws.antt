-- ===== src/Instance/Operating/Laws.antt =====
-- pkg/instance/service.go: what a deployment of an instance that succeeds has done.
use im_manager.Base.{
  ℕ, String, ◌≡◌, refl, true, Option, none, some, string_eq, ◌⊎◌, inl, inr, Bool-cases,
}
use im_manager.Base.Dict.{Dict}
use im_manager.Base.Text.{contains_text}
use im_manager.Errdef.{Error, ok}
use im_manager.Action.{continued-eq-ok}
use im_manager.Model.{Group, Database, DeploymentInstance}
use im_manager.Instance.Operating.{
  Output, Machines, restore, conclude, deploy_instance, in_progress, no_namespace,
}

module _ {W : Type 0} (M : Machines W) where
  -- Either the process succeeded and its log was saved, or another operation was in progress.
  abbrev pub Concluded : DeploymentInstance → Output → W → W → Type 0
  Concluded instance output w w' =
      ((output.failure ≡ none) × (M.save_deploy_log instance output.log w ≡ (ok tt, w')))
      ⊎ ((e : Error) × (output.failure ≡ some e)
          × (contains_text output.error_log in_progress ≡ true)
          × (w' ≡ w))

  conclude-eq-ok :
      (i : DeploymentInstance) (g : Group) (o : Output) (f : Option Error) (w w' : W)
      → o.failure ≡ f
      → conclude M i g o f w ≡ (ok tt, w')
      → Concluded i o w w'
  unfolding conclude
  conclude-eq-ok i g o none w w' same e = inl (same, e)
  conclude-eq-ok i g o (some x) w w' same e =
      elim (Bool-cases (contains_text o.error_log in_progress)) [
        | inl h ↦ inr (x, same, h, cc (rw (h, conclude) at e))
        | inr h ↦ elim (Bool-cases (contains_text o.error_log (no_namespace g))) [
          | inl k ↦ absurd (cc (rw (h, k, conclude) at e))
          | inr k ↦ absurd (cc (rw (h, k, conclude) at e))
        ]
      ]

  -- When DeployInstance succeeds, the group was found, what the data base has of a filestore was restored
  -- before the command was made and run, and then either the process succeeded and its log was saved, or
  -- it failed because another operation was in progress.
  pub deploy_instance-eq-ok :
      (token : String) (i : DeploymentInstance) (ttl : ℕ) (env : Dict String)
      (filestore : Option Database) (w w' : W)
      → deploy_instance M token i ttl env filestore w ≡ (ok tt, w')
      → (group : Group) × (command : M.Command) × (w₁ w₂ w₃ : W) × (M.find_group i.group_name w
          ≡ (ok group, w₁))
        × (restore M i filestore w₁ ≡ (ok tt, w₂))
        × (M.sync_command token i group ttl env w₂ ≡ (ok command, w₃))
        × Concluded i (M.execute command group w₃).0 (M.execute command group w₃).1 w'
  unfolding deploy_instance
  deploy_instance-eq-ok token i ttl env filestore w w' e =
      let (group, w₁, found, e1) = continued-eq-ok (M.find_group i.group_name w) _ e in
      let (_, w₂, restored, e2) = continued-eq-ok (restore M i filestore w₁) _ e1 in
      let (command, w₃, made, e3) =
        continued-eq-ok (M.sync_command token i group ttl env w₂) _ e2 in
      let run = M.execute command group w₃ in
      (
        group,
        command,
        w₁,
        w₂,
        w₃,
        found,
        restored,
        made,
        conclude-eq-ok i group run.0 run.0.failure run.1 w' refl e3,
      )
