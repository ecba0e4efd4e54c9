-- ===== src/Instance/Parameters.antt =====
-- The parameters of a deployment's instances: `resolveParameters` and what it calls, in
-- pkg/instance/service.go. The instances are shared by pointer: the state is the deployment's list,
-- in which each step changes the instance at its position.
pub mod Preparing
pub mod Consuming
pub mod Resolving
use im_manager.Base.{
  ℕ, zero, suc, String, ◌<>◌, Bool, true, false, not, Option, none, some, List, [], ◌∷◌, ◌==◌,
  string_eq, if◌then◌else◌,
}
use im_manager.Base.Dict.{Dict, get, put, has}
use im_manager.Base.Lists.{length, get_elem?, modify}
use im_manager.Errdef.{
  Error, Result, ok, err, errorf, new_not_found, on_error, join_errors, ◌>>=◌, ◌>>◌,
}
use im_manager.Model.{DeploymentInstance, DeploymentInstanceParameter, DeploymentInstanceParameters}
use im_manager.Stack
use im_manager.Stack.{
  Stack, StackDetail, StackParameter, StackParameters, ParameterProvider, Stacks,
}
use im_manager.Instance.Links.{find_instance_by_stack_name}

-- `stack.Parameters[name].Consumed`: the zero value for a missing name.
unfoldable pub is_consumed : Stack → String → Bool
is_consumed stack name = elim (get stack.parameters name) [ none ↦ false | some sp ↦ sp.consumed ]

consumed_errors : Stack → List String → List Error
consumed_errors stack [] = []
consumed_errors stack (name ∷ names) =
    let rest = consumed_errors stack names in
    if is_consumed stack name
    then errorf "consumed parameters can't be supplied by the user: %s" ∷ rest
    else rest

unfoldable pub reject_consumed_parameters : Stacks → String → List String → Result (Unit {0})
unfolding consumed_errors is_consumed
reject_consumed_parameters stacks stack_name param_names = do
  stack ← Stack.find stacks stack_name
  join_errors (consumed_errors stack param_names)

unknown_errors : Stack → DeploymentInstanceParameters → List Error
unknown_errors stack [] = []
unknown_errors stack ((name, _) ∷ parameters) =
    let rest = unknown_errors stack parameters in
    if has stack.parameters name then rest else errorf "parameter not found on stack: %s" ∷ rest

unfoldable pub reject_non_existing_parameters :
    DeploymentInstanceParameters → Stack → Result (Unit {0})
unfolding unknown_errors
reject_non_existing_parameters parameters stack = join_errors (unknown_errors stack parameters)

-- The parameter that a stack's parameter stands in for.
unfoldable pub default_parameter : String → StackParameter → DeploymentInstanceParameter
default_parameter name sp = record {
  deployment_instance_id = 0;
  parameter_name = name;
  stack_name = "";
  value = elim sp.default_value [ none ↦ "" | some value ↦ value ];
}

unfoldable pub add_default_parameter_values :
    DeploymentInstanceParameters → StackParameters → DeploymentInstanceParameters
unfolding default_parameter
add_default_parameter_values parameters [] = parameters
add_default_parameter_values parameters ((name, sp) ∷ rest) =
    add_default_parameter_values
      (if has parameters name then parameters else put parameters name (default_parameter name sp))
      rest

-- `stackParameter.Validator(parameter.Value)`, if there is a validator.
unfoldable pub validate_parameter : Stack → String → DeploymentInstanceParameter → Result (Unit {0})
validate_parameter stack name p = elim (get stack.parameters name) [
  | none ↦ ok tt
  | some sp ↦ elim sp.validator [ none ↦ ok tt | some validator ↦ validator p.value ]
]

validation_errors : Stack → DeploymentInstanceParameters → List Error
validation_errors stack [] = []
validation_errors stack ((name, p) ∷ parameters) =
    let rest = validation_errors stack parameters in
    elim (validate_parameter stack name p) [
      | ok _ ↦ rest
      | err _ ↦ errorf "validation failed for parameter %s: %v" ∷ rest
    ]

unfoldable pub validate_parameters : DeploymentInstanceParameters → Stack → Result (Unit {0})
unfolding validation_errors
validate_parameters parameters stack = join_errors (validation_errors stack parameters)

-- The value of a parameter of the source instance, if it has the parameter.
unfoldable pub take_value :
    DeploymentInstance → String → DeploymentInstanceParameter → DeploymentInstanceParameter
take_value source name p = elim (get source.parameters name) [
  | none ↦ p
  | some sp ↦ record p { value = sp.value }
]

-- `sourceInstance.Group = …` through the pointer that `findInstanceByStackName` returns.
set_source : String → DeploymentInstance → List DeploymentInstance → List DeploymentInstance
set_source name source [] = []
set_source name source (i ∷ is) =
    if i.stack_name == name then source ∷ is else i ∷ set_source name source is

-- One required stack: the value from its instance, and then from its provider. Returns the
-- instances, of which the source may have a new group, and the parameter.
unfoldable pub consume :
    List DeploymentInstance
    → DeploymentInstance
    → StackDetail
    → String
    → DeploymentInstanceParameter
    → Result (List DeploymentInstance × DeploymentInstanceParameter)
unfolding set_source
consume instances instance required name p =
    elim (find_instance_by_stack_name required.name instances) [
      | none ↦ err (new_not_found "failed to find required instance %q of instance %q")
      | some source ↦
          let p' = take_value source name p in
          elim (get required.parameter_providers name) [
            | none ↦ ok (instances, p')
            | some provide ↦
                let source' = record source { group = instance.group } in
                do
                  value ←
                      on_error (provide source')
                        (λ _. errorf "failed to provide value for instance %q parameter %q: %v")
                  ok (set_source required.name source' instances, record p' { value = value })
          ]
    ]

-- instance.Parameters[name] = parameter
abbrev pub set_parameter :
    String → DeploymentInstanceParameter → DeploymentInstance → DeploymentInstance
set_parameter name p i = record i { parameters = put i.parameters name p }

-- The loop over the required stacks, for the parameter `name` of the instance at position `k`.
unfoldable pub consume_required :
    List DeploymentInstance
    → ℕ
    → List StackDetail
    → String
    → DeploymentInstanceParameter
    → Result (List DeploymentInstance)
consume_required instances k [] name p = ok instances
consume_required instances k (required ∷ rest) name p = elim (get_elem? instances k) [
  | none ↦ ok instances
  | some instance ↦ do
    (instances', p') ← consume instances instance required name p
    consume_required (modify instances' k (set_parameter name p')) k rest name p'
]

-- The loop over `instance.Parameters`, whose entries are read before they are changed.
unfoldable pub resolve_consumed_parameters :
    List DeploymentInstance
    → ℕ
    → Stack
    → DeploymentInstanceParameters
    → Result (List DeploymentInstance)
resolve_consumed_parameters instances k stack [] = ok instances
resolve_consumed_parameters instances k stack ((name, p) ∷ parameters) = do
  instances' ←
      (if is_consumed stack name
        then consume_required instances k stack.requires name p
        else ok instances)
  resolve_consumed_parameters instances' k stack parameters

module _ (stacks : Stacks) where
  -- One round of the loop of `resolveParameters`, for the instance at position `k`.
  unfoldable pub resolve_instance :
      List DeploymentInstance → ℕ → DeploymentInstance → Result (List DeploymentInstance)
  resolve_instance instances k instance = do
    stack ← Stack.find stacks instance.stack_name
    reject_non_existing_parameters instance.parameters stack
    let parameters = add_default_parameter_values instance.parameters stack.parameters
    validate_parameters parameters stack
    resolve_consumed_parameters (modify instances k (λ i. record i { parameters = parameters })) k
        stack parameters

  -- The loop, from position `k` on, for as many rounds as there are instances left.
  unfoldable pub resolve_from : ℕ → List DeploymentInstance → ℕ → Result (List DeploymentInstance)
  resolve_from zero instances k = ok instances
  resolve_from (suc rounds) instances k = elim (get_elem? instances k) [
    | none ↦ ok instances
    | some instance ↦ do
      instances' ← resolve_instance instances k instance
      resolve_from rounds instances' (suc k)
  ]

  unfoldable pub resolve_parameters : List DeploymentInstance → Result (List DeploymentInstance)
  resolve_parameters instances = resolve_from (length instances) instances 0
