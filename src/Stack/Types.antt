-- ===== src/Stack/Types.antt =====
-- pkg/model/stack.go: the deployable stacks, their parameters and what
-- they provide to one another.
use im_manager.Base.{ℕ, String, Bool, Option, List}
use im_manager.Base.Dict.{Dict}
use im_manager.Errdef.{Result}
use im_manager.Model.{DeploymentInstance, DeploymentInstanceParameter}

pub data KubernetesResource : Type 0 where
  unset deployment_resource stateful_set_resource : KubernetesResource

-- `RequireCompanionFunc` returns a stack of which only the name is read: here it returns that name.
pub record StackParameter : Type 0 where
  pub display_name : String
  pub default_value : Option String
  pub consumed : Bool
  pub validator : Option (String → Result (Unit {0}))
  pub priority : ℕ
  pub sensitive : Bool
  pub require_companion : Option (DeploymentInstanceParameter → Result (Option String))

abbrev pub StackParameters : Type 0
StackParameters = Dict StackParameter

abbrev pub ParameterProvider : Type 0
ParameterProvider = DeploymentInstance → Result String

abbrev pub ParameterProviders : Type 0
ParameterProviders = Dict ParameterProvider

-- A stack without the stacks that it names, which is all that is read of a required stack.
pub record StackDetail : Type 0 where
  pub name : String
  pub parameters : StackParameters
  pub hostname_pattern : String
  pub hostname_variable : String
  pub parameter_providers : ParameterProviders
  pub kubernetes_resource : KubernetesResource

pub record Stack : Type 0 where
  pub detail : StackDetail
  pub open detail use *
  pub requires : List StackDetail
  pub companions : List StackDetail

abbrev pub Stacks : Type 0
Stacks = Dict Stack
