-- ===== src/Instance/Parameters/Preparing.antt =====
-- What happens to the parameters of one instance before any value is consumed: unknown names are
-- refused, defaults are added, and values are validated.
use im_manager.Base.{
  String, ◌≡◌, true, Option, none, some, [], ◌∷◌, arith, string_eq, Bool-cases, inl, inr,
}
use im_manager.Base.Dict.{get, put, has, get-put, has_iff_get}
use im_manager.Errdef.{ok, join_errors-eq-ok}
use im_manager.Model.{DeploymentInstanceParameter, DeploymentInstanceParameters}
use im_manager.Stack.{Stack, StackParameters}
use im_manager.Instance.Parameters.{
  default_parameter, add_default_parameter_values, unknown_errors, reject_non_existing_parameters,
  validate_parameter, validation_errors, validate_parameters,
}

-- The parameter that was supplied, or else the stack's default for that name, if any.
abbrev pub supplied_or_default :
    DeploymentInstanceParameters → StackParameters → String → Option DeploymentInstanceParameter
supplied_or_default parameters sps x = elim (get parameters x) [
  | some p ↦ some p
  | none ↦ elim (get sps x) [ none ↦ none | some sp ↦ some (default_parameter x sp) ]
]

-- After `addDefaultParameterValues`, a parameter has the supplied value if there is one, and
-- otherwise the default of the stack's parameter of that name.
pub get-add_default_parameter_values :
    (parameters : DeploymentInstanceParameters) (sps : StackParameters) (x : String)
    → get (add_default_parameter_values parameters sps) x ≡ supplied_or_default parameters sps x
unfolding add_default_parameter_values get
get-add_default_parameter_values parameters [] x = ground arith
get-add_default_parameter_values parameters ((name, sp) ∷ sps) x =
    elim (Bool-cases (has parameters name)) [
      | inl there ↦ rw there (
          ground
            (arith, get-add_default_parameter_values parameters sps x, has_iff_get parameters name))
      | inr absent ↦ rw absent (
          ground (
            arith,
            get-add_default_parameter_values (put parameters name (default_parameter name sp)) sps
                x,
            get-put parameters name x (default_parameter name sp),
            has_iff_get parameters name,
          ))
    ]

unknown_errors-nil :
    (stack : Stack) (parameters : DeploymentInstanceParameters) (x : String)
    → unknown_errors stack parameters ≡ []
    → has parameters x ≡ true
    → has stack.parameters x ≡ true
unfolding unknown_errors has
unknown_errors-nil stack [] x e h = cc
unknown_errors-nil stack ((name, p) ∷ parameters) x e h =
    ground (arith, unknown_errors-nil stack parameters x)

pub reject_non_existing_parameters-eq-ok :
    (parameters : DeploymentInstanceParameters) (stack : Stack)
    → reject_non_existing_parameters parameters stack ≡ ok tt
    → (x : String) → has parameters x ≡ true
    → has stack.parameters x ≡ true
unfolding reject_non_existing_parameters
reject_non_existing_parameters-eq-ok parameters stack e x =
    unknown_errors-nil stack parameters x (join_errors-eq-ok _ e)

validation_errors-nil :
    (stack : Stack) (parameters : DeploymentInstanceParameters) (x : String)
    (p : DeploymentInstanceParameter)
    → validation_errors stack parameters ≡ []
    → get parameters x ≡ some p
    → validate_parameter stack x p ≡ ok tt
unfolding validation_errors get
validation_errors-nil stack [] x p e h = cc
validation_errors-nil stack ((name, q) ∷ parameters) x p e h =
    ground (arith, validation_errors-nil stack parameters x p)

pub validate_parameters-eq-ok :
    (parameters : DeploymentInstanceParameters) (stack : Stack)
    → validate_parameters parameters stack ≡ ok tt
    → (x : String) (p : DeploymentInstanceParameter) → get parameters x ≡ some p
    → validate_parameter stack x p ≡ ok tt
unfolding validate_parameters
validate_parameters-eq-ok parameters stack e x p =
    validation_errors-nil stack parameters x p (join_errors-eq-ok _ e)
