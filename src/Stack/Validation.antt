-- ===== src/Stack/Validation.antt =====
-- `New`, `ValidateNoCycles` and `ValidateConsumedParameters` of pkg/stack/stack.go.
pub mod Counting
use im_manager.Base.{
  ℕ, zero, suc, ◌+◌, String, Bool, true, false, Option, none, some, List, [], ◌∷◌, ◌++◌, ◌==◌,
  string_eq, nat_eq, ltb, if◌then◌else◌,
}
use im_manager.Base.Dict.{Dict, get, put, has}
use im_manager.Errdef.{Error, Result, ok, err, errorf, join_errors, ◌>>=◌, ◌>>◌}
use im_manager.Graph.{GraphLib, GraphError, done, failed, edge_already_exists, edge_creates_cycle}
use im_manager.Stack.Types.{
  Stack, StackDetail, StackParameter, StackParameters, ParameterProviders, Stacks,
}

edge_error : GraphError → Error
edge_error edge_already_exists = errorf "stack %q requires %q more than once"
edge_error edge_creates_cycle = errorf "edge from stack %q to stack %q creates a cycle"
edge_error _ = errorf "failed adding edge from stack %q to stack %q: %v"

module _ (G : GraphLib) where
  add_vertices : G.Graph → List Stack → Result G.Graph
  add_vertices g [] = ok g
  add_vertices g (stack ∷ stacks) = elim (G.add_vertex g stack.name) [
    | done g' ↦ add_vertices g' stacks
    | failed _ ↦ err (errorf "failed adding vertex for stack %q: %v")
  ]

  -- The loop over `src.Requires`.
  add_edges : G.Graph → String → List StackDetail → Result G.Graph
  unfolding edge_error
  add_edges g src [] = ok g
  add_edges g src (dest ∷ requires) = elim (G.add_edge g src dest.name) [
    | done g' ↦ add_edges g' src requires
    | failed e ↦ err (edge_error e)
  ]

  add_all_edges : G.Graph → List Stack → Result G.Graph
  add_all_edges g [] = ok g
  add_all_edges g (src ∷ stacks) = do
    g' ← add_edges g src.name src.requires
    add_all_edges g' stacks

  unfoldable pub validate_no_cycles : List Stack → Result G.Graph
  unfolding add_vertices add_edges add_all_edges
  validate_no_cycles stacks = do g ← add_vertices G.new stacks; add_all_edges g stacks

-- m[k]++
unfoldable pub increment : Dict ℕ → String → Dict ℕ
increment m k = put m k (elim (get m k) [ none ↦ 1 | some n ↦ n + 1 ])

-- `consumedParameterProviders` and `requiredStacks`, while they are counted.
pub record Counts : Type 0 where
  pub providers : Dict ℕ
  pub required : Dict ℕ

unfoldable pub required_names : List StackDetail → Dict ℕ → Dict ℕ
required_names [] m = m
required_names (r ∷ requires) m = required_names requires (put m r.name 0)

unfoldable pub consumed_names : StackParameters → Dict ℕ → Dict ℕ
consumed_names [] m = m
consumed_names ((name, p) ∷ parameters) m =
    consumed_names parameters (if p.consumed then put m name 0 else m)

-- A name that the required stack offers.
unfoldable pub count_name : String → String → Counts → Counts
unfolding increment
count_name required name c =
    if has c.providers name
    then record { providers = increment c.providers name; required = increment c.required required }
    else c

unfoldable pub count_parameters : String → StackParameters → Counts → Counts
count_parameters required [] c = c
count_parameters required ((name, p) ∷ parameters) c =
    count_parameters required parameters (if p.consumed then c else count_name required name c)

unfoldable pub count_providers : String → ParameterProviders → Counts → Counts
count_providers required [] c = c
count_providers required ((name, _) ∷ providers) c =
    count_providers required providers (count_name required name c)

unfoldable pub count_requires : List StackDetail → Counts → Counts
count_requires [] c = c
count_requires (r ∷ requires) c =
    count_requires requires
      (count_providers r.name r.parameter_providers (count_parameters r.name r.parameters c))

unfoldable pub counts : Stack → Counts
unfolding count_requires required_names consumed_names
counts stack = count_requires stack.requires (record {
  providers = consumed_names stack.parameters [];
  required = required_names stack.requires [];
})

provider_errors : Dict ℕ → List Error
provider_errors [] = []
provider_errors ((parameter, n) ∷ m) =
    let rest = provider_errors m in
    let more =
      if ltb 1 n
      then errorf
          "every consumed parameter must have exactly one provider. %d provider(s) for stack %q parameter %q"
        ∷ rest
      else rest in
    if n == 0 then errorf "no provider for stack %q parameter %q" ∷ more else more

required_errors : Dict ℕ → List Error
required_errors [] = []
required_errors ((name, n) ∷ m) =
    let rest = required_errors m in
    if n == 0 then errorf "stack %q requires %q but does not consume from %q" ∷ rest else rest

unfoldable pub stack_errors : Stack → List Error
unfolding provider_errors required_errors
stack_errors stack =
    provider_errors (counts stack).providers ++ required_errors (counts stack).required

all_errors : List Stack → List Error
all_errors [] = []
all_errors (stack ∷ stacks) = stack_errors stack ++ all_errors stacks

unfoldable pub validate_consumed_parameters : List Stack → Result (Unit {0})
unfolding all_errors
validate_consumed_parameters stacks = join_errors (all_errors stacks)

by_name : List Stack → Stacks → Stacks
by_name [] m = m
by_name (s ∷ stacks) m = by_name stacks (put m s.name s)

module _ (G : GraphLib) where
  -- New
  unfoldable pub new : List Stack → Result Stacks
  unfolding by_name
  new stacks = do
    _ ← validate_no_cycles G stacks
    validate_consumed_parameters stacks
    ok (by_name stacks [])
