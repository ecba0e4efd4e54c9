-- ===== src/Instance/Handler/Replies.antt =====
-- pkg/instance/handler.go: what the handlers that only read reply with.
use text.Mathlib.TextLemmas.{nil-append, cons-append}
use mathlib.Core.Path.{subst}
use im_manager.Base.{
  ℕ, ◌≡◌, refl, ap, ◌∙◌, String, ◌<>◌, true, false, some, List, nat_eq, All, arith,
}
use im_manager.Errdef.{ok}
use im_manager.Model.{User, Deployment}
use im_manager.Authorize.{can_read_deployment}
use im_manager.Stack.{Stacks}
use im_manager.Instance.Listing.{GroupWithDeployments}
use im_manager.Instance.Handler.{Services}
use im_manager.Instance.Handler.Stripping.{strip_deployment, strip_groups}
use im_manager.Instance.Handler.Hiding.{
  Hides, HidesGroup, strip_deployment-Hides, strip_groups-Hide,
}
use im_manager.Instance.Handler.Reading.{
  find_deployment_by_id, find_deployments, has_new_line, streamed,
}
use im_manager.Web.{Request, went_on, Reply, get_user_from_context, parse_uint_32, value_of}
use im_manager.Web.Laws.{
  chained-get_path_parameter-eq-went_on, chained-served-eq-went_on, chained-check-eq-went_on,
  chained-require-eq-went_on, get_user_from_context-eq-ok, went_on-injective,
}

module _ {W B : Type 0} (S : Services W) (stacks : Stacks) (r : Request B) where
  -- When FindDeploymentById replies, the path names a deployment that is found and that the user in
  -- the context may read, and what is shown hides every sensitive value.
  pub find_deployment_by_id-eq-went_on :
      (w w' : W) (a : Reply Deployment)
      → find_deployment_by_id S stacks r w ≡ (went_on a, w')
      → (user : User) × (id : ℕ) × (deployment : Deployment) × (r.user ≡ some user)
        × (parse_uint_32 (value_of r.params "id") ≡ some id)
        × (S.find_deployment_by_id id w ≡ (ok deployment, w'))
        × (can_read_deployment user deployment ≡ true)
        × Hides stacks a.body
  unfolding find_deployment_by_id
  find_deployment_by_id-eq-went_on w w' a e =
      let (id, named, e1) = chained-get_path_parameter-eq-went_on w r "id" _ e in
      let (user, there, e2) = chained-check-eq-went_on (get_user_from_context r) w _ e1 in
      let (d, u, found, e3) = chained-served-eq-went_on (S.find_deployment_by_id id w) _ e2 in
      let (may, e4) = chained-require-eq-went_on _ u _ (can_read_deployment user d) e3 in
      let (d', stripped, e5) = chained-check-eq-went_on (strip_deployment stacks d) u _ e4 in
      let (shown, same) = went_on-injective e5 in
      (
        user,
        id,
        d,
        get_user_from_context-eq-ok r user there,
        named,
        found ∙ ap (λ x. (ok d, x)) same,
        may,
        subst (Hides stacks) (ap (λ x. x.body) shown) (strip_deployment-Hides stacks d d' stripped),
      )

  -- When FindDeployments replies, no deployment of any group shows a sensitive value.
  pub find_deployments-Hide :
      (w w' : W) (a : Reply (List GroupWithDeployments))
      → find_deployments S stacks r w ≡ (went_on a, w')
      → All (HidesGroup stacks) a.body
  unfolding find_deployments
  find_deployments-Hide w w' a e =
      let (user, there, e1) = chained-check-eq-went_on (get_user_from_context r) w _ e in
      let (groups, u, found, e2) = chained-served-eq-went_on (S.find_deployments user w) _ e1 in
      let (shown, stripped, e3) = chained-check-eq-went_on (strip_groups stacks groups) u _ e2 in
      subst (All (HidesGroup stacks)) (ap (λ x. x.body) (went_on-injective e3).0)
        (strip_groups-Hide stacks groups shown stripped)

streamed-no_new_line : (t : String) → has_new_line t ≡ false → streamed t ≡ ""
unfolding streamed has_new_line
streamed-no_new_line String.[] h = refl
streamed-no_new_line (String.◌∷◌ c t) h = ground arith

newline-append : (t : String) → "\n" <> t ≡ String.◌∷◌ "\n" t
newline-append t = cons-append "\n" "" t ∙ ap (String.◌∷◌ "\n") (nil-append t)

has_new_line-append : (s t : String) → has_new_line (s <> ("\n" <> t)) ≡ true
unfolding has_new_line nat_eq
has_new_line-append String.[] t = rw (nil-append ("\n" <> t), newline-append t) refl
has_new_line-append (String.◌∷◌ c s) t =
    rw (cons-append c s ("\n" <> t)) (ground (arith, has_new_line-append s t))

-- The logs are streamed up to the last new line: a last line that none ends is not sent.
pub streamed-append :
    (s t : String) → has_new_line t ≡ false → streamed (s <> ("\n" <> t)) ≡ s <> "\n"
unfolding streamed has_new_line nat_eq
streamed-append String.[] t h =
    rw (nil-append ("\n" <> t), newline-append t, streamed, streamed-no_new_line t h) refl
streamed-append (String.◌∷◌ c s) t h =
    rw (cons-append c s ("\n" <> t), cons-append c s "\n")
      (ground (arith, has_new_line-append s t, streamed-append s t h))
