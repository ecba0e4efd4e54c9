-- ===== src/Graph/Kahn/Laws.antt =====
-- The graphs of `Kahn` keep what the documentation of the library promises.
use mathlib.Core.Path.{subst}
use im_manager.Base.{
  ◌≡◌, refl, String, Bool, true, false, ◌&&◌, ◌||◌, List, arith, ◌==◌, string_eq, if◌then◌else◌,
}
use im_manager.Base.Lists.{length, contains}
use im_manager.Graph.Interface.{
  GraphResult, done, failed, vertex_already_exists, vertex_not_found, edge_already_exists, IsLawful,
}
use im_manager.Graph.Kahn.{
  Sorted, linked, kahn, extended, check, with_order, rebuild, check-contains, add_edge,
  add_vertex_if, kahn_graphs,
}

done-injective : {A : Type 0} {a b : A} → done a ≡ done b → a ≡ b
done-injective e = cc

add_vertex_if-again :
    (g : Sorted) (v : String) (t : Bool) (c : contains g.order v ≡ t)
    → contains g.order v ≡ true
    → add_vertex_if g v t c ≡ failed vertex_already_exists
unfolding add_vertex_if
add_vertex_if-again g v true c h = refl
add_vertex_if-again g v false c h = cc

abbrev AddsVertex : Sorted → String → Sorted → Type 0
AddsVertex g v h =
    ((x : String) → contains h.order x ≡ (x == v || contains g.order x))
    × ((a b : String) → linked h.edges a b ≡ linked g.edges a b)

add_vertex_if-fresh :
    (g : Sorted) (v : String) (t : Bool) (c : contains g.order v ≡ t)
    → contains g.order v ≡ false
    → (h : Sorted) × (add_vertex_if g v t c ≡ done h) × AddsVertex g v h
unfolding add_vertex_if contains
add_vertex_if-fresh g v true c h = cc
add_vertex_if-fresh g v false c h = (_, refl, ((λ x. refl), (λ a b. refl)))

abbrev AddsEdge : Sorted → String → String → Sorted → Type 0
AddsEdge g a b h =
    ((x : String) → contains h.order x ≡ contains g.order x)
    × ((x y : String) → linked h.edges x y ≡ ((x == a && y == b) || linked g.edges x y))

rebuild-done :
    (g : Sorted) (a b : String) (o : List String) (t : Bool)
    (c : check g.order (extended g a b) o ≡ t) (h : Sorted)
    → rebuild g a b o t c ≡ done h
    → AddsEdge g a b h
unfolding rebuild with_order linked
rebuild-done g a b o true c h e =
    subst (AddsEdge g a b) (done-injective e) (check-contains g a b o c, λ x y. refl)
rebuild-done g a b o false c h e = cc

both_tests :
    (p q : Bool) (r : GraphResult Sorted) (h : Sorted)
    → (if p then if q then failed edge_already_exists else r else failed vertex_not_found) ≡ done h
    → r ≡ done h
both_tests p q r h e = ground arith

add_edge-done :
    (g : Sorted) (a b : String) (h : Sorted) → add_edge g a b ≡ done h → AddsEdge g a b h
unfolding add_edge
add_edge-done g a b h e =
    let o = kahn (length g.order) (extended g a b) g.order in
    rebuild-done g a b o (check g.order (extended g a b) o) refl h
      (both_tests (contains g.order a && contains g.order b) (linked g.edges a b) _ h e)

pub kahn_graphs-IsLawful : IsLawful kahn_graphs
unfolding kahn_graphs contains linked
kahn_graphs-IsLawful = record {
  has_vertex = λ g. contains g.order;
  has_edge = λ g. linked g.edges;
  vertex-new = λ v. refl;
  edge-new = λ a b. refl;
  add_vertex-again = λ g v h. add_vertex_if-again g v _ refl h;
  add_vertex-fresh =
      λ g v h. let (g', e, p) = add_vertex_if-fresh g v _ refl h in (g', e, p.0, p.1);
  add_edge-missing = λ g a b h. rw h;
  add_edge-again = λ g a b h l. rw (h, l);
  add_edge-done = add_edge-done;
  sorts = λ g. (g.order, refl, g.distinct, λ x. refl, g.sorted);
}
