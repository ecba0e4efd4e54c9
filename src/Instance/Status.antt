-- ===== src/Instance/Status.antt =====
-- `GetStatus` of pkg/instance/service.go: the status of an instance, from the pod that runs it.
use mathlib.Core.Path.{subst}
use im_manager.Base.{
  ℕ, String, ◌<>◌, Bool, false, ◌≡◌, ◌≢◌, ◌↔◌, refl, sym, ap, ◌∙◌, ◌||◌, Option, none, some, List,
  [], ◌∷◌, ◌==◌, string_eq, if◌then◌else◌, All, arith,
}
use im_manager.Base.Decimal.{decimal}
use im_manager.Errdef.{Result, ok, err, errorf, is_not_found, ◌>>=◌, ok-injective}
use im_manager.Model.{DeploymentInstance}

-- The parts of a pod of Kubernetes that are read.
pub data PodPhase : Type 0 where
  pod_pending pod_running pod_failed other_phase : PodPhase

pub record Waiting : Type 0 where
  pub reason : String
  pub message : String

-- The state in which the container waits, and the reason of its last termination.
pub record ContainerStatus : Type 0 where
  pub waiting : Option Waiting
  pub terminated : Option String
  pub restart_count : ℕ

-- A condition is kept as whether its status is `False`.
pub record Pod : Type 0 where
  pub phase : PodPhase
  pub init_container_statuses : List ContainerStatus
  pub container_statuses : List ContainerStatus
  pub conditions : List Bool

-- The texts: `Error` alone, `Error: …` and `Booting (…)`.
pub data InstanceStatus : Type 0 where
  not_deployed pending booting running error : InstanceStatus
  booting_with_restart : ℕ → InstanceStatus
  error_of : String → InstanceStatus

unfoldable pub text_of : InstanceStatus → String
unfolding decimal
text_of not_deployed = "NotDeployed"
text_of pending = "Pending"
text_of booting = "Booting"
text_of running = "Running"
text_of error = "Error"
text_of (booting_with_restart n) = "Booting (" <> (decimal n <> ")")
text_of (error_of m) = "Error: " <> m

-- The message of the first container whose image cannot be pulled.
unfoldable pub image_pull_error : List ContainerStatus → Option String
image_pull_error [] = none
image_pull_error (c ∷ cs) =
    let rest = image_pull_error cs in
    elim c.waiting [
      | none ↦ rest
      | some w ↦ if w.reason == "ImagePullBackOff" then some w.message else rest
    ]

-- The status of a pod that is pending.
unfoldable pub pending_status : Pod → InstanceStatus
pending_status pod = elim (image_pull_error pod.init_container_statuses) [
  | some m ↦ error_of m
  | none ↦ elim (image_pull_error pod.container_statuses) [ some m ↦ error_of m | none ↦ pending ]
]

-- slices.ContainsFunc
unfoldable pub any_failed : List ContainerStatus → Bool
any_failed [] = false
any_failed (c ∷ cs) =
    elim c.terminated [ none ↦ false | some reason ↦ reason == "Error" ] || any_failed cs

unfoldable pub any_true : List Bool → Bool
any_true [] = false
any_true (b ∷ bs) = b || any_true bs

-- The restarts of the first container, if some container failed.
unfoldable pub restarts : List ContainerStatus → Option ℕ
restarts [] = none
restarts (c ∷ cs) = if any_failed (c ∷ cs) then some c.restart_count else none

unfoldable pub booting_status : Pod → InstanceStatus
booting_status pod = elim (restarts pod.init_container_statuses) [
  | some n ↦ booting_with_restart n
  | none ↦ elim (restarts pod.container_statuses) [
    | some n ↦ booting_with_restart n
    | none ↦ booting
  ]
]

unfoldable pub pod_status : PodPhase → Pod → Result InstanceStatus
pod_status pod_pending pod = ok (pending_status pod)
pod_status pod_failed pod = ok error
pod_status pod_running pod = ok (if any_true pod.conditions then booting_status pod else running)
pod_status other_phase pod = err (errorf "failed to get instance status")

unfoldable pub found_status : Result Pod → Result InstanceStatus
found_status (ok pod) = pod_status pod.phase pod
found_status (err e) = if is_not_found e then ok not_deployed else err e

-- `connect` is `NewKubernetesService` for the cluster of the instance's group, and `get_pod` then
-- looks up a pod by the instance's id and no type.
unfoldable pub get_status :
    {K : Type 0}
    → (DeploymentInstance → Result K)
    → (K → ℕ → Result Pod)
    → DeploymentInstance
    → Result InstanceStatus
get_status connect get_pod instance = do
  ks ← connect instance
  found_status (get_pod ks instance.id)

-- The pod runs, and no condition is false.
abbrev pub IsUp : Pod → Type 0
IsUp pod = (pod.phase ≡ pod_running) × All (λ b. b ≡ false) pod.conditions

any_true_iff : (bs : List Bool) → (any_true bs ≡ false) ↔ All (λ b. b ≡ false) bs
unfolding any_true
any_true_iff [] = ground arith
any_true_iff (b ∷ bs) = ground (arith, any_true_iff bs)

pending_status-ne : (pod : Pod) → pending_status pod ≢ running
unfolding pending_status
pending_status-ne pod =
    pulled (image_pull_error pod.init_container_statuses) (image_pull_error pod.container_statuses)
  where
    pulled :
        (o p : Option String)
        → elim o [ some m ↦ error_of m | none ↦ elim p [ some m ↦ error_of m | none ↦ pending ] ]
          ≢ running
    pulled (some m) p h = cc
    pulled none (some m) h = cc
    pulled none none h = cc

booting_status-ne : (pod : Pod) → booting_status pod ≢ running
unfolding booting_status
booting_status-ne pod =
    restarted (restarts pod.init_container_statuses) (restarts pod.container_statuses)
  where
    restarted :
        (o p : Option ℕ)
        → elim o [
          | some n ↦ booting_with_restart n
          | none ↦ elim p [ some n ↦ booting_with_restart n | none ↦ booting ]
        ]
          ≢ running
    restarted (some n) p h = cc
    restarted none (some n) h = cc
    restarted none none h = cc

pod_status-running_iff :
    (ph : PodPhase) (pod : Pod)
    → (pod_status ph pod ≡ ok running) ↔ ((ph ≡ pod_running) × All (λ b. b ≡ false) pod.conditions)
unfolding pod_status
pod_status-running_iff pod_pending pod = ground (arith, pending_status-ne pod)
pod_status-running_iff pod_failed pod = ground arith
pod_status-running_iff other_phase pod = ground arith
pod_status-running_iff pod_running pod =
    ground (arith, booting_status-ne pod, any_true_iff pod.conditions)

found_status-running_iff :
    (r : Result Pod) → (found_status r ≡ ok running) ↔ ((pod : Pod) × (r ≡ ok pod) × IsUp pod)
unfolding found_status
found_status-running_iff (ok pod) = (
  (λ h. (pod, refl, (pod_status-running_iff pod.phase pod).0 h)),
  λ (p, same, up).
      (pod_status-running_iff pod.phase pod).1 (subst IsUp (sym (ok-injective same)) up),
)
found_status-running_iff (err e) = ((λ h. absurd (missing h)), λ (p, same, up). cc)
  where
    missing : (if is_not_found e then ok not_deployed else err e) ≢ ok running
    missing h = ground arith

-- The status is `Running` exactly if the cluster can be reached and has a pod of the instance, which
-- runs and has no condition that is false.
pub get_status-running_iff :
    {K : Type 0} (connect : DeploymentInstance → Result K) (get_pod : K → ℕ → Result Pod)
    (i : DeploymentInstance)
    → (get_status connect get_pod i ≡ ok running)
      ↔ ((ks : K) × (pod : Pod) × (connect i ≡ ok ks) × (get_pod ks i.id ≡ ok pod) × IsUp pod)
unfolding get_status
get_status-running_iff {K} connect get_pod i = connected (connect i)
  where
    connected :
        (r : Result K)
        → ((r >>= λ ks. found_status (get_pod ks i.id)) ≡ ok running)
          ↔ ((ks : K) × (pod : Pod) × (r ≡ ok ks) × (get_pod ks i.id ≡ ok pod) × IsUp pod)
    connected (err e) = ((λ h. cc), λ (ks, pod, same, found, up). cc)
    connected (ok ks) = (
      (λ h.
          let (pod, found, up) = (found_status-running_iff (get_pod ks i.id)).0 h in
          (ks, pod, refl, found, up)),
      λ (k, pod, same, found, up).
          (found_status-running_iff (get_pod ks i.id)).1
            (pod, ap (λ x. get_pod x i.id) (ok-injective same) ∙ found, up),
    )
