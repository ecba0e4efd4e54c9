-- ===== src/Instance/Order/Links.antt =====
-- The graph that `validateNoCycles` builds: its vertices are the instances' stacks, and it has an
-- edge from each instance to whatever the instance needs.
use mathlib.Core.Option.{some-injective}
use mathlib.Core.List.{Memᴰ}
use mathlib.Core.Path.{subst}
use im_manager.Base.{
  String, ◌≡◌, refl, ◌∙◌, sym, ap, true, false, ◌||◌, Option, none, some, List, [], ◌∷◌, map, arith,
  ◌⊎◌, inl, inr, string_eq, Bool-cases, All, Memᴰ-cons,
}
use im_manager.Base.Dict.{Dict}
use im_manager.Base.Lists.{contains, Distinct}
use im_manager.Errdef.{ok, >>=-eq-ok, ok-injective}
use im_manager.Model.{DeploymentInstance, DeploymentInstanceParameter}
use im_manager.Graph.{GraphLib, done, IsLawful}
use im_manager.Stack
use im_manager.Stack.{Stack, StackDetail, Stacks}
use im_manager.Instance.Links.{
  companion_of, add_vertices, add_edge, link_companion, link_companions, link_required,
  link_instances, validate_no_cycles,
}

-- The stack `dest` must be part of the deployment, and be deployed before `src`: the stack of `src`
-- requires it, or a parameter of `src` requires it as a companion.
pub data Needs (stacks : Stacks) (src : DeploymentInstance) (dest : String) : Type 0 where
  required :
      (stack : Stack)
      → Stack.find stacks src.stack_name ≡ ok stack
      → contains (map (λ (r : StackDetail). r.name) stack.requires) dest ≡ true
      → Needs stacks src dest
  companion :
      (stack : Stack)
      → Stack.find stacks src.stack_name ≡ ok stack
      → (k : String) (p : DeploymentInstanceParameter) → Memᴰ (k, p) src.parameters
      → companion_of stack p ≡ ok (some dest)
      → Needs stacks src dest

abbrev pub stack_names : List DeploymentInstance → List String
stack_names = map (λ (i : DeploymentInstance). i.stack_name)

-- The two ways to be needed, at the one stack that `src` is an instance of.
abbrev NeedsAt : Stack → DeploymentInstance → String → Type 0
NeedsAt stack src dest =
    (contains (map (λ (r : StackDetail). r.name) stack.requires) dest ≡ true)
    ⊎ ((k : String) × (p : DeploymentInstanceParameter) × Memᴰ (k, p) src.parameters
        × (companion_of stack p ≡ ok (some dest)))

needs_at :
    (stacks : Stacks) (src : DeploymentInstance) (dest : String) (stack : Stack)
    → Stack.find stacks src.stack_name ≡ ok stack
    → Needs stacks src dest
    → NeedsAt stack src dest
needs_at stacks src dest stack found (required s f c) =
    subst (λ t. NeedsAt t src dest) (ok-injective (sym f ∙ found)) (inl c)
needs_at stacks src dest stack found (companion s f k p m c) =
    subst (λ t. NeedsAt t src dest) (ok-injective (sym f ∙ found)) (inr (k, p, m, c))

module _ (G : GraphLib) (L : IsLawful G) where
  -- `h` has the vertices of `g`, and its edges or more.
  pub record Extends (g h : G.Graph) : Type 0 where
    pub vertices : (x : String) → L.has_vertex h x ≡ L.has_vertex g x
    pub edges : (a b : String) → L.has_edge g a b ≡ true → L.has_edge h a b ≡ true

  Extends-refl : (g : G.Graph) → Extends g g
  Extends-refl g = record { vertices = λ x. refl; edges = λ a b h. h }

  Extends-ok : {g h : G.Graph} → ok g ≡ ok h → Extends g h
  Extends-ok {g} e = subst (Extends g) (ok-injective e) (Extends-refl g)

  Extends-trans : {f g h : G.Graph} → Extends f g → Extends g h → Extends f h
  Extends-trans p q = record {
    vertices = λ x. q.vertices x ∙ p.vertices x;
    edges = λ a b h. q.edges a b (p.edges a b h);
  }

  add_vertices_lem :
      (g : G.Graph) (is : List DeploymentInstance) (h : G.Graph)
      → add_vertices G g is ≡ ok h
      → Distinct (stack_names is)
        × ((x : String) → contains (stack_names is) x ≡ true → L.has_vertex g x ≡ false)
        × ((x : String) → L.has_vertex h x ≡ (contains (stack_names is) x || L.has_vertex g x))
  unfolding add_vertices contains
  add_vertices_lem g [] h e = (tt, λ x c. cc, λ x. ground arith)
  add_vertices_lem g (i ∷ is) h e = elim (Bool-cases (L.has_vertex g i.stack_name)) [
    | inl old ↦ ground (arith, L.add_vertex-again g i.stack_name old)
    | inr fresh ↦
        let (g', made, vs, es) = L.add_vertex-fresh g i.stack_name fresh in
        let rest = add_vertices_lem g' is h (ground arith) in
        (
          (ground (arith, rest.1 i.stack_name, vs i.stack_name), rest.0),
          λ x c. ground (arith, rest.1 x, vs x),
          λ x. ground (arith, rest.2 x, vs x),
        )
  ]

  add_edge-eq-ok :
      (g : G.Graph) (a b : String) (h : G.Graph)
      → add_edge G g a b ≡ ok h
      → G.add_edge g a b ≡ done h
  unfolding add_edge
  add_edge-eq-ok g a b h e = ground arith

  add_edge_lem :
      (g : G.Graph) (a b : String) (h : G.Graph)
      → add_edge G g a b ≡ ok h
      → Extends g h × (L.has_edge h a b ≡ true)
  add_edge_lem g a b h e =
      let (vs, es) = L.add_edge-done g a b h (add_edge-eq-ok g a b h e) in
      (record { vertices = vs; edges = λ x y p. ground (arith, es x y) }, ground (arith, es a b))

  link_companion_lem :
      (g : G.Graph) (src : String) (c : Option String) (h : G.Graph)
      → link_companion G g src c ≡ ok h
      → Extends g h × ((dest : String) → c ≡ some dest → L.has_edge h src dest ≡ true)
  unfolding link_companion
  link_companion_lem g src none h e = (Extends-ok e, λ dest p. cc)
  link_companion_lem g src (some c) h e =
      let (x, p) = add_edge_lem g src c h e in (x, λ dest q. rw (sym (some-injective c dest q)) p)

  link_required_lem :
      (g : G.Graph) (src : String) (rs : List StackDetail) (h : G.Graph)
      → link_required G g src rs ≡ ok h
      → Extends g h
        × ((dest : String)
            → contains (map (λ (r : StackDetail). r.name) rs) dest ≡ true
            → L.has_edge h src dest ≡ true)
  unfolding link_required contains
  link_required_lem g src [] h e = (Extends-ok e, λ dest p. cc)
  link_required_lem g src (r ∷ rs) h e =
      let (g', one, more) = >>=-eq-ok (add_edge G g src r.name) _ e in
      let (x, p) = add_edge_lem g src r.name g' one in
      let (y, q) = link_required_lem g' src rs h more in
      (Extends-trans x y, λ dest c. ground (arith, q dest, y.edges src dest))

  link_companions_lem :
      (g : G.Graph) (src : String) (stack : Stack) (ps : Dict DeploymentInstanceParameter)
      (h : G.Graph)
      → link_companions G g src stack ps ≡ ok h
      → Extends g h
        × ((k : String) (p : DeploymentInstanceParameter) (dest : String)
            → Memᴰ (k, p) ps
            → companion_of stack p ≡ ok (some dest)
            → L.has_edge h src dest ≡ true)
  unfolding link_companions
  link_companions_lem g src stack [] h e = (Extends-ok e, λ k p dest m. elim m [ ])
  link_companions_lem g src stack ((k, p) ∷ ps) h e =
      let (c, found, rest) = >>=-eq-ok (companion_of stack p) _ e in
      let (g', one, more) = >>=-eq-ok (link_companion G g src c) _ rest in
      let (x, q) = link_companion_lem g src c g' one in
      let (y, r) = link_companions_lem g' src stack ps h more in
      (
        Extends-trans x y,
        λ k' p' dest m needs. elim (Memᴰ-cons m) [
          | inl same ↦ y.edges src dest (q dest (cc (ap (λ t. t.1) same)))
          | inr later ↦ r k' p' dest later needs
        ],
      )

  module _ (stacks : Stacks) where
    -- The graph has an edge to whatever `src` needs.
    abbrev Linked : G.Graph → DeploymentInstance → Type 0
    Linked g src = (dest : String) → Needs stacks src dest → L.has_edge g src.stack_name dest ≡ true

    Linked-Extends :
        {g h : G.Graph}
        → Extends g h
        → (is : List DeploymentInstance) → All (Linked g) is
        → All (Linked h) is
    Linked-Extends x [] l = tt
    Linked-Extends x (i ∷ is) l =
        (λ dest n. x.edges i.stack_name dest (l.0 dest n), Linked-Extends x is l.1)

    link_instances_lem :
        (g : G.Graph) (is : List DeploymentInstance) (h : G.Graph)
        → link_instances G stacks g is ≡ ok h
        → Extends g h × All (Linked h) is
    unfolding link_instances
    link_instances_lem g [] h e = (Extends-ok e, tt)
    link_instances_lem g (src ∷ is) h e =
        let (stack, found, e₁) = >>=-eq-ok (Stack.find stacks src.stack_name) _ e in
        let (g', one, e₂) =
          >>=-eq-ok (link_companions G g src.stack_name stack src.parameters) _ e₁ in
        let (g'', two, e₃) = >>=-eq-ok (link_required G g' src.stack_name stack.requires) _ e₂ in
        let (x, p) = link_companions_lem g src.stack_name stack src.parameters g' one in
        let (y, q) = link_required_lem g' src.stack_name stack.requires g'' two in
        let (z, r) = link_instances_lem g'' is h e₃ in
        (
          Extends-trans x (Extends-trans y z),
          (
            λ dest n. elim (needs_at stacks src dest stack found n) [
              | inl c ↦ z.edges src.stack_name dest (q dest c)
              | inr c ↦
                  z.edges src.stack_name dest (y.edges src.stack_name dest (p c.0 c.1 dest c.2 c.3))
            ],
            r,
          ),
        )

    -- Once validated: no two instances are of one stack, the vertices are the instances' stacks,
    -- and each instance is linked to what it needs.
    pub validate_no_cycles_lem :
        (is : List DeploymentInstance) (h : G.Graph)
        → validate_no_cycles G stacks is ≡ ok h
        → Distinct (stack_names is)
          × ((x : String) → L.has_vertex h x ≡ contains (stack_names is) x)
          × All (Linked h) is
    unfolding validate_no_cycles
    validate_no_cycles_lem is h e =
        let (g, one, two) = >>=-eq-ok (add_vertices G G.new is) _ e in
        let (d, _, v) = add_vertices_lem G.new is g one in
        let (x, l) = link_instances_lem g is h two in
        (d, λ n. ground (arith, x.vertices n, v n, L.vertex-new n), l)
