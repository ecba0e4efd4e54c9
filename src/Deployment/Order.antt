-- ===== src/Deployment/Order.antt =====
-- `DeployDeployment`: which instances are deployed, in which order, and where it stops.
use im_manager.Base.{ℕ, String, ◌≡◌, refl, some, List, [], ◌∷◌, ◌++◌, map, inl, inr}
use im_manager.Errdef.{Error, Result, ok, err}
use im_manager.Action.{result-cases}
use im_manager.Model.{DeploymentInstance, Deployment}
use im_manager.Graph.{GraphLib, IsLawful}
use im_manager.Stack.{Stacks}
use im_manager.Instance.Links.{validate_no_cycles, ordered_instances}
use im_manager.Instance.Order.Sorted.{IsDeployOrder, ordered_instances-IsDeployOrder}
use im_manager.Deployment.{Services, deploy_next, deploy_each, deploy_deployment}

module _ {W : Type 0} (S : Services W) (hostname : String) (ttl : ℕ)
    (all : List DeploymentInstance) where
  -- One instance after the other is deployed, each with the token that the one before left.
  pub data Deployed : String → W → List DeploymentInstance → String → W → Type 0 where
    nothing : {t : String} {w : W} → Deployed t w [] t w
    next :
        {t t' t'' : String} {w w' w'' : W} {i : DeploymentInstance} {is : List DeploymentInstance}
        → deploy_next S hostname ttl (map some all) t (some i) w ≡ (ok t', w')
        → Deployed t' w' is t'' w''
        → Deployed t w (i ∷ is) t'' w''

  -- All of the instances are deployed, or those before the first that fails, with its error.
  pub data Ends (t : String) (w : W)
      : List DeploymentInstance → Result (Unit {0}) × W → Type 0 where
    completed :
        {is : List DeploymentInstance} {t' : String} {w' : W}
        → Deployed t w is t' w'
        → Ends t w is (ok tt, w')
    stopped :
        (before : List DeploymentInstance) (i : DeploymentInstance)
        (after : List DeploymentInstance) {t' : String} {w' w'' : W} {e : Error}
        → Deployed t w before t' w'
        → deploy_next S hostname ttl (map some all) t' (some i) w' ≡ (err e, w'')
        → Ends t w (before ++ i ∷ after) (err e, w'')

  Ends-cons :
      {t t' : String} {w w' : W} (i : DeploymentInstance) {is : List DeploymentInstance}
      {r : Result (Unit {0}) × W}
      → deploy_next S hostname ttl (map some all) t (some i) w ≡ (ok t', w')
      → Ends t' w' is r
      → Ends t w (i ∷ is) r
  Ends-cons i d (completed ds) = completed (next d ds)
  Ends-cons i d (stopped before j after ds f) = stopped (i ∷ before) j after (next d ds) f

  deploy_each-Ends :
      (t : String) (w : W) (is : List DeploymentInstance)
      → Ends t w is (deploy_each S hostname ttl (map some all) t (map some is) w)
  unfolding deploy_each
  deploy_each-Ends t w [] = completed nothing
  deploy_each-Ends t w (i ∷ is) =
      elim (result-cases (deploy_next S hostname ttl (map some all) t (some i) w)) [
        | inl (t', w', d) ↦ rw d (Ends-cons i d (deploy_each-Ends t' w' is))
        | inr (e, w', d) ↦ rw d (stopped [] i is nothing d)
      ]

module _ {W : Type 0} (S : Services W) (hostname : String) (G : GraphLib) (L : IsLawful G)
    (stacks : Stacks) where
  -- For a deployment whose instances validate, `DeployDeployment` goes through an order of exactly
  -- the deployment's instances in which each comes after whatever it needs. It deploys each with
  -- the token refreshed from the one before, until all are deployed, or up to the first that
  -- fails, whose error and state are the result.
  pub deploy_deployment-Ends :
      (token : String) (d : Deployment) (g : G.Graph) (w : W)
      → validate_no_cycles G stacks d.instances ≡ ok g
      → (l : List DeploymentInstance) × IsDeployOrder G L stacks d l
        × Ends S hostname d.ttl l token w l (deploy_deployment S hostname G stacks token d w)
  unfolding deploy_deployment
  deploy_deployment-Ends token d g w valid =
      let (l, found, ordered) = ordered_instances-IsDeployOrder G L stacks d g valid in
      (l, ordered, rw found (deploy_each-Ends S hostname d.ttl l token w l))

  -- A deployment that is not in order, or whose stacks are unknown, is not deployed at all.
  pub deploy_deployment-invalid :
      (token : String) (d : Deployment) (w : W) (e : Error)
      → validate_no_cycles G stacks d.instances ≡ err e
      → deploy_deployment S hostname G stacks token d w ≡ (err e, w)
  unfolding deploy_deployment ordered_instances
  deploy_deployment-invalid token d w e invalid = rw invalid refl
