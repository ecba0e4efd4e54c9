-- ===== src/Graph/Kahn.antt =====
-- A library of graphs that meets `IsLawful`: each graph carries a topological order, which is
-- computed anew when an edge is added.
pub mod Laws
use im_manager.Base.{
  ℕ, zero, suc, ◌≡◌, refl, ◌∙◌, sym, String, Bool, true, false, not, ◌&&◌, ◌||◌, Option, none, some,
  List, [], ◌∷◌, arith, ◌==◌, string_eq, if◌then◌else◌, Bool-cases, inl, inr,
}
use im_manager.Base.Lists.{length, contains, precedes, Distinct}
use im_manager.Graph.Interface.{
  GraphLib, GraphResult, done, failed, vertex_already_exists, vertex_not_found, edge_already_exists,
  edge_creates_cycle, IsLawful,
}

abbrev pub Edges : Type 0
Edges = List (String × String)

pub linked : Edges → String → String → Bool
linked [] a b = false
linked ((x, y) ∷ es) a b = (a == x && b == y) || linked es a b

pub record Sorted : Type 0 where
  pub order : List String
  pub edges : Edges
  pub distinct : Distinct order
  pub sorted : (a b : String) → linked edges a b ≡ true → precedes a b order ≡ true

-- Some vertex of the list has an edge to `v`.
pub has_source : Edges → List String → String → Bool
has_source es [] v = false
has_source es (u ∷ us) v = linked es u v || has_source es us v

-- The first vertex of the list that no vertex of `all` has an edge to.
pub first_free : Edges → List String → List String → Option String
first_free es all [] = none
first_free es all (v ∷ vs) = if has_source es all v then first_free es all vs else some v

pub without : String → List String → List String
without v [] = []
without v (u ∷ us) = let rest = without v us in if u == v then rest else u ∷ rest

pub kahn : ℕ → Edges → List String → List String
unfolding first_free has_source linked without
kahn zero es vs = []
kahn (suc n) es vs = elim (first_free es vs vs) [
  | none ↦ []
  | some v ↦ v ∷ kahn n es (without v vs)
]

pub distinct_test : List String → Bool
unfolding contains
distinct_test [] = true
distinct_test (x ∷ xs) = not (contains xs x) && distinct_test xs

pub subset : List String → List String → Bool
unfolding contains
subset [] ys = true
subset (x ∷ xs) ys = contains ys x && subset xs ys

pub respects : Edges → List String → Bool
unfolding precedes
respects [] o = true
respects ((a, b) ∷ es) o = precedes a b o && respects es o

pub check : List String → Edges → List String → Bool
unfolding distinct_test subset respects
check old es o = distinct_test o && (subset old o && (subset o old && respects es o))

pub distinct_test_sound : (xs : List String) → distinct_test xs ≡ true → Distinct xs
unfolding distinct_test
distinct_test_sound [] h = tt
distinct_test_sound (x ∷ xs) h = ground (arith, distinct_test_sound xs)

subset_sound :
    (xs ys : List String) (x : String)
    → subset xs ys ≡ true
    → contains xs x ≡ true
    → contains ys x ≡ true
unfolding subset contains
subset_sound [] ys x h c = cc
subset_sound (y ∷ xs) ys x h c = ground (arith, subset_sound xs ys x)

pub respects_sound :
    (es : Edges) (o : List String) (a b : String)
    → respects es o ≡ true
    → linked es a b ≡ true
    → precedes a b o ≡ true
unfolding respects linked
respects_sound [] o a b h l = cc
respects_sound ((x, y) ∷ es) o a b h l = ground (arith, respects_sound es o a b)

abbrev pub extended : Sorted → String → String → Edges
extended g a b = (a, b) ∷ g.edges

abbrev pub Checked : Sorted → String → String → List String → Type 0
Checked g a b o = check g.order (extended g a b) o ≡ true

module _ (g : Sorted) (a b : String) (o : List String) where
  pub check-distinct_test : Checked g a b o → distinct_test o ≡ true
  unfolding check
  check-distinct_test c = ground arith

  pub check-respects : Checked g a b o → respects (extended g a b) o ≡ true
  unfolding check
  check-respects c = ground arith

  check-contains : Checked g a b o → (x : String) → contains o x ≡ contains g.order x
  unfolding check
  check-contains c x = ground (arith, subset_sound g.order o x, subset_sound o g.order x)

  pub with_order : Checked g a b o → Sorted
  with_order c = record {
    order = o;
    edges = extended g a b;
    distinct = distinct_test_sound o (check-distinct_test c);
    sorted = λ x y. respects_sound (extended g a b) o x y (check-respects c);
  }

  pub rebuild : (t : Bool) → check g.order (extended g a b) o ≡ t → GraphResult Sorted
  rebuild true c = done (with_order c)
  rebuild false c = failed edge_creates_cycle

pub add_edge : Sorted → String → String → GraphResult Sorted
unfolding rebuild with_order linked kahn check contains
add_edge g a b =
    if contains g.order a && contains g.order b
    then if linked g.edges a b
      then failed edge_already_exists
      else rebuild g a b (kahn (length g.order) (extended g a b) g.order) _ refl
    else failed vertex_not_found

pub empty : Sorted
empty = record { order = []; edges = []; distinct = tt; sorted = λ a b. unfold linked in λ h. cc }

-- A new vertex has no edge yet, and comes first.
pub precedes-fresh :
    (es : Edges) (o : List String) (v : String)
    → ((a b : String) → linked es a b ≡ true → precedes a b o ≡ true)
    → (a b : String) → linked es a b ≡ true
    → precedes a b (v ∷ o) ≡ true
unfolding precedes
precedes-fresh es o v h a b l = ground (arith, h a b)

add_vertex_if : (g : Sorted) (v : String) (t : Bool) → contains g.order v ≡ t → GraphResult Sorted
add_vertex_if g v true c = failed vertex_already_exists
add_vertex_if g v false c = done (record {
  order = v ∷ g.order;
  edges = g.edges;
  distinct = (c, g.distinct);
  sorted = precedes-fresh g.edges g.order v g.sorted;
})

add_vertex : Sorted → String → GraphResult Sorted
unfolding add_vertex_if contains
add_vertex g v = add_vertex_if g v (contains g.order v) refl

unfoldable pub kahn_graphs : GraphLib
unfolding add_vertex add_edge empty
kahn_graphs = record {
  Graph = Sorted;
  new = empty;
  add_vertex = add_vertex;
  add_edge = add_edge;
  topological_sort = λ g. done g.order;
}
