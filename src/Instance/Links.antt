-- ===== src/Instance/Links.antt =====
-- `validateNoCycles`, `deploymentOrder` and `DeploymentOrder`: the graph of a deployment's instances.
use im_manager.Base.{String, Option, none, some, List, [], ◌∷◌, map, ◌==◌, string_eq, if◌then◌else◌}
use im_manager.Base.Dict.{Dict, get}
use mathlib.Core.List.{reverse}
use im_manager.Errdef.{Error, Result, ok, err, errorf, on_error, ◌>>=◌}
use im_manager.Model.{DeploymentInstance, DeploymentInstanceParameter, Deployment}
use im_manager.Graph.{
  GraphLib, GraphError, done, failed, vertex_already_exists, vertex_not_found, edge_already_exists,
  edge_creates_cycle,
}
use im_manager.Stack
use im_manager.Stack.{Stack, StackDetail, StackParameter, Stacks}

vertex_error : GraphError → Error
vertex_error vertex_already_exists =
    errorf "failed adding instance for stack %q as one already exists"
vertex_error _ = errorf "failed adding instance %q: %v"

-- The companions' edges and the required stacks' report the same errors.
edge_error : GraphError → Error
edge_error edge_already_exists = errorf "instance %q requires %q more than once"
edge_error edge_creates_cycle = errorf "link from instance %q to stack %q creates a cycle"
edge_error vertex_not_found = errorf "%q is required by %q"
edge_error _ = errorf "failed linking instance %q with instance %q: %v"

-- `stackParameter.RequireCompanion` of a parameter, run on it: the zero `StackParameter` has none.
unfoldable pub companion_of : Stack → DeploymentInstanceParameter → Result (Option String)
companion_of stack p = elim (get stack.parameters p.parameter_name) [
  | none ↦ ok none
  | some sp ↦ elim sp.require_companion [
    | none ↦ ok none
    | some require ↦
        on_error (require p) (λ _. errorf "failed to check companion for parameter %q: %v")
  ]
]

module _ (G : GraphLib) where
  -- The first loop.
  unfoldable pub add_vertices : G.Graph → List DeploymentInstance → Result G.Graph
  unfolding vertex_error
  add_vertices g [] = ok g
  add_vertices g (instance ∷ instances) = elim (G.add_vertex g instance.stack_name) [
    | done g' ↦ add_vertices g' instances
    | failed e ↦ err (vertex_error e)
  ]

  unfoldable pub add_edge : G.Graph → String → String → Result G.Graph
  unfolding edge_error
  add_edge g src dest = elim (G.add_edge g src dest) [
    | done g' ↦ ok g'
    | failed e ↦ err (edge_error e)
  ]

  -- The edge to a companion, if the parameter requires one.
  unfoldable pub link_companion : G.Graph → String → Option String → Result G.Graph
  link_companion g src none = ok g
  link_companion g src (some companion) = add_edge g src companion

  unfoldable pub link_companions :
      G.Graph → String → Stack → Dict DeploymentInstanceParameter → Result G.Graph
  link_companions g src stack [] = ok g
  link_companions g src stack ((_, p) ∷ parameters) = do
    companion ← companion_of stack p
    g' ← link_companion g src companion
    link_companions g' src stack parameters

  unfoldable pub link_required : G.Graph → String → List StackDetail → Result G.Graph
  link_required g src [] = ok g
  link_required g src (required ∷ rest) = do
    g' ← add_edge g src required.name
    link_required g' src rest

  module _ (stacks : Stacks) where
    -- The second loop.
    unfoldable pub link_instances : G.Graph → List DeploymentInstance → Result G.Graph
    link_instances g [] = ok g
    link_instances g (src ∷ instances) = do
      stack ← Stack.find stacks src.stack_name
      g' ← link_companions g src.stack_name stack src.parameters
      g'' ← link_required g' src.stack_name stack.requires
      link_instances g'' instances

    unfoldable pub validate_no_cycles : List DeploymentInstance → Result G.Graph
    validate_no_cycles instances = do g ← add_vertices G.new instances; link_instances g instances

unfoldable pub find_instance_by_stack_name :
    String → List DeploymentInstance → Option DeploymentInstance
find_instance_by_stack_name name [] = none
find_instance_by_stack_name name (instance ∷ instances) =
    if instance.stack_name == name
    then some instance
    else find_instance_by_stack_name name instances

module _ (G : GraphLib) (stacks : Stacks) where
  -- `deploymentOrder`. A pointer that may be nil is an `Option`.
  unfoldable pub deployment_order : Deployment → G.Graph → Result (List (Option DeploymentInstance))
  deployment_order deployment g = elim (G.topological_sort g) [
    | failed _ ↦ err (errorf "failed to order the deployment: %v")
    | done names ↦
        ok (map (λ name. find_instance_by_stack_name name deployment.instances) (reverse names))
  ]

  -- `DeploymentOrder`
  unfoldable pub ordered_instances : Deployment → Result (List (Option DeploymentInstance))
  ordered_instances deployment = do
    g ← validate_no_cycles G stacks deployment.instances
    deployment_order deployment g
