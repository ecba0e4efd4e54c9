-- ===== src/Instance/Handler/Stripping.antt =====
-- pkg/instance/handler.go: the sensitive values that a reply does not show.
use im_manager.Base.{List, [], ◌∷◌, if◌then◌else◌}
use im_manager.Errdef.{Result, ok, ◌>>=◌}
use im_manager.Model.{
  Deployment, DeploymentInstance, DeploymentInstanceParameter, DeploymentInstanceParameters,
}
use im_manager.Stack.{Stack, Stacks, find}
use im_manager.Instance.Encryption.{is_sensitive}
use im_manager.Instance.Listing.{GroupWithDeployments}

-- One round of the loop of `stripInstanceSensitiveParameterValues`.
unfoldable pub strip_parameter : Stack → DeploymentInstanceParameter → DeploymentInstanceParameter
strip_parameter stack p =
    if is_sensitive stack p.parameter_name then record p { value = "***" } else p

unfoldable pub strip_parameters :
    Stack → DeploymentInstanceParameters → DeploymentInstanceParameters
strip_parameters stack [] = []
strip_parameters stack ((index, p) ∷ ps) =
    (index, strip_parameter stack p) ∷ strip_parameters stack ps

unfoldable pub strip_instance : Stacks → DeploymentInstance → Result DeploymentInstance
strip_instance stacks instance = do
  stack ← find stacks instance.stack_name
  ok (record instance { parameters = strip_parameters stack instance.parameters })

unfoldable pub strip_instances : Stacks → List DeploymentInstance → Result (List DeploymentInstance)
strip_instances stacks [] = ok []
strip_instances stacks (instance ∷ instances) = do
  stripped ← strip_instance stacks instance
  rest ← strip_instances stacks instances
  ok (stripped ∷ rest)

unfoldable pub strip_deployment : Stacks → Deployment → Result Deployment
strip_deployment stacks deployment = do
  instances ← strip_instances stacks deployment.instances
  ok (record deployment { instances = instances })

-- The loops of `FindDeployments`.
unfoldable pub strip_deployments : Stacks → List Deployment → Result (List Deployment)
strip_deployments stacks [] = ok []
strip_deployments stacks (deployment ∷ deployments) = do
  stripped ← strip_deployment stacks deployment
  rest ← strip_deployments stacks deployments
  ok (stripped ∷ rest)

unfoldable pub strip_groups :
    Stacks → List GroupWithDeployments → Result (List GroupWithDeployments)
strip_groups stacks [] = ok []
strip_groups stacks (group ∷ groups) = do
  deployments ← strip_deployments stacks group.deployments
  rest ← strip_groups stacks groups
  ok (record group { deployments = deployments } ∷ rest)
