-- ===== src/Tests/Stacks.antt =====
-- The counts of the providers on the registered stacks.
use im_manager.Base.{◌≡◌, refl, true, All, string_eq, nat_eq}
use im_manager.Base.Dict.{get, put, has}
use im_manager.Errdef.{join_errors}
use im_manager.Stack.Validation.{
  counts, count_name, count_parameters, count_providers, stack_errors, validate_consumed_parameters,
}
use im_manager.Stack.Validation.Counting.{
  times, offers, consumes, validate_consumed_parameters-one_provider,
}
use im_manager.Tests.Samples.{all_stacks}

validate_consumed_parameters-one_provider_example :
    All (λ s. (x : _) → consumes s.parameters x ≡ true → times x (offers s.requires) ≡ 1) all_stacks
unfolding validate_consumed_parameters string_eq join_errors stack_errors counts count_providers
    count_name has count_parameters put nat_eq get
validate_consumed_parameters-one_provider_example =
    validate_consumed_parameters-one_provider all_stacks refl
