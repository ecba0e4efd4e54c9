-- ===== src/Graph/Interface.antt =====
-- github.com/dominikbraun/graph, as pkg/stack and pkg/instance use it: directed graphs made with
-- `PreventCycles`, whose vertices are named by texts. The library is not part of the repository:
-- it is a parameter of the model, and `IsLawful` is what its documentation promises.
use im_manager.Base.{◌≡◌, String, Bool, true, false, ◌&&◌, ◌||◌, List, ◌==◌, string_eq}
use im_manager.Base.Lists.{contains, precedes, Distinct}

-- ErrVertexAlreadyExists, ErrVertexNotFound, ErrEdgeAlreadyExists, ErrEdgeCreatesCycle
pub data GraphError : Type 0 where
  vertex_already_exists vertex_not_found edge_already_exists edge_creates_cycle : GraphError
  other : GraphError

pub data GraphResult (A : Type 0) : Type 0 where
  done : A → GraphResult A
  failed : GraphError → GraphResult A

pub record GraphLib : Type 1 where
  pub Graph : Type 0
  pub new : Graph
  pub add_vertex : Graph → String → GraphResult Graph
  pub add_edge : Graph → String → String → GraphResult Graph
  pub topological_sort : Graph → GraphResult (List String)

-- The documented behaviour. `has_vertex` and `has_edge` are what `Vertex` and `Edge` report.
pub record IsLawful (G : GraphLib) : Type 0 where
  pub has_vertex : G.Graph → String → Bool
  pub has_edge : G.Graph → String → String → Bool
  pub vertex-new : (v : String) → has_vertex G.new v ≡ false
  pub edge-new : (a b : String) → has_edge G.new a b ≡ false
  -- A vertex is added once.
  pub add_vertex-again :
      (g : G.Graph) (v : String)
      → has_vertex g v ≡ true
      → G.add_vertex g v ≡ failed vertex_already_exists
  pub add_vertex-fresh :
      (g : G.Graph) (v : String)
      → has_vertex g v ≡ false
      → (g' : G.Graph) × (G.add_vertex g v ≡ done g')
        × ((x : String) → has_vertex g' x ≡ (x == v || has_vertex g x))
        × ((a b : String) → has_edge g' a b ≡ has_edge g a b)
  -- An edge needs both its ends, and is added once.
  pub add_edge-missing :
      (g : G.Graph) (a b : String)
      → (has_vertex g a && has_vertex g b) ≡ false
      → G.add_edge g a b ≡ failed vertex_not_found
  pub add_edge-again :
      (g : G.Graph) (a b : String)
      → (has_vertex g a && has_vertex g b) ≡ true
      → has_edge g a b ≡ true
      → G.add_edge g a b ≡ failed edge_already_exists
  pub add_edge-done :
      (g : G.Graph) (a b : String) (g' : G.Graph)
      → G.add_edge g a b ≡ done g'
      → ((x : String) → has_vertex g' x ≡ has_vertex g x)
        × ((x y : String) → has_edge g' x y ≡ ((x == a && y == b) || has_edge g x y))
  -- A graph that was made with `PreventCycles` has no cycle, so that it can be sorted.
  pub sorts :
      (g : G.Graph)
      → (order : List String) × (G.topological_sort g ≡ done order)
        × Distinct order
        × ((x : String) → contains order x ≡ has_vertex g x)
        × ((a b : String) → has_edge g a b ≡ true → precedes a b order ≡ true)
