-- ===== src/Instance/Order/Sorted.antt =====
-- `DeploymentOrder`: the instances of a validated deployment, each after what it needs.
use mathlib.Core.Path.{subst, subst₂}
use mathlib.Core.List.{Perm, reverse, filter_map}
use mathlib.Core.List.Perm
use im_manager.Base.{
  String, ◌≡◌, refl, ◌∙◌, sym, ap, true, false, some, List, [], ◌∷◌, map, arith, string_eq, All,
  All-mono,
}
use im_manager.Base.Lists.{
  contains, precedes, Distinct, contains-reverse, precedes-reverse, reverse-Distinct,
}
use im_manager.Base.Members.{perm_of_Distinct}
use im_manager.Errdef.{ok}
use im_manager.Model.{DeploymentInstance, Deployment}
use im_manager.Graph.{GraphLib, IsLawful}
use im_manager.Stack.{Stacks}
use im_manager.Instance.Links.{
  find_instance_by_stack_name, validate_no_cycles, deployment_order, ordered_instances,
}
use im_manager.Instance.Order.Links.{Needs, stack_names, validate_no_cycles_lem}

find_skips :
    (i : DeploymentInstance) (is : List DeploymentInstance) (ns : List String)
    → contains ns i.stack_name ≡ false
    → map (λ n. find_instance_by_stack_name n (i ∷ is)) ns
      ≡ map (λ n. find_instance_by_stack_name n is) ns
unfolding find_instance_by_stack_name contains
find_skips i is [] h = refl
find_skips i is (n ∷ ns) h = ground (arith, find_skips i is ns)

-- Looking each stack up finds each instance, if no two instances are of one stack.
find_all :
    (is : List DeploymentInstance)
    → Distinct (stack_names is)
    → map (λ n. find_instance_by_stack_name n is) (stack_names is) ≡ map some is
unfolding find_instance_by_stack_name
find_all [] d = refl
find_all (i ∷ is) d = ground (arith, find_skips i is (stack_names is) d.0, find_all is d.1)

find_known :
    (n : String) (is : List DeploymentInstance)
    → contains (stack_names is) n ≡ true
    → (i : DeploymentInstance) × (find_instance_by_stack_name n is ≡ some i) × (i.stack_name ≡ n)
unfolding find_instance_by_stack_name contains
find_known n [] h = cc
find_known n (i ∷ is) h = elim (string_eq.dec i.stack_name n) [
  | yes p ↦ (i, ground arith, p)
  | no q ↦ let (j, found, named) = find_known n is (ground arith) in (j, ground arith, named)
]

-- Looking up known stacks finds instances of these stacks, in this order.
find_each :
    (ns : List String) (is : List DeploymentInstance)
    → ((x : String) → contains ns x ≡ true → contains (stack_names is) x ≡ true)
    → (l : List DeploymentInstance) × (map (λ n. find_instance_by_stack_name n is) ns ≡ map some l)
      × (stack_names l ≡ ns)
unfolding contains
find_each [] is h = ([], refl, refl)
find_each (n ∷ ns) is h =
    let (i, found, named) = find_known n is (h n (ground arith)) in
    let (l, p, q) = find_each ns is (λ x c. h x (ground arith)) in
    (i ∷ l, ground arith, ground arith)

filter_map-somes : {A : Type 0} (xs : List A) → filter_map (λ o. o) (map some xs) ≡ xs
unfolding filter_map
filter_map-somes [] = refl
filter_map-somes (x ∷ xs) = ap (◌∷◌ x) (filter_map-somes xs)

perm_of_somes : {A : Type 0} (xs ys : List A) → Perm (map some xs) (map some ys) → Perm xs ys
perm_of_somes xs ys p =
    subst₂ Perm (filter_map-somes xs) (filter_map-somes ys) (Perm.filter_map (λ o. o) p)

module _ (G : GraphLib) (L : IsLawful G) (stacks : Stacks) where
  -- The instance comes after whatever it needs.
  abbrev pub ComesAfterNeeds : List DeploymentInstance → DeploymentInstance → Type 0
  ComesAfterNeeds l src =
      (dest : String) → Needs stacks src dest → precedes dest src.stack_name (stack_names l) ≡ true

  -- An order of the deployment's instances in which each comes after whatever it needs.
  pub record IsDeployOrder (d : Deployment) (l : List DeploymentInstance) : Type 0 where
    pub same : Perm l d.instances
    pub one_each : Distinct (stack_names l)
    pub after_needs : All (ComesAfterNeeds l) d.instances

  -- For a deployment whose instances validate, `DeploymentOrder` succeeds: it returns exactly the
  -- deployment's instances, no nil among them and no two of one stack, and each instance comes
  -- after every stack that its own stack requires or one of its parameters asks for as a companion.
  pub ordered_instances-IsDeployOrder :
      (d : Deployment) (g : G.Graph)
      → validate_no_cycles G stacks d.instances ≡ ok g
      → (l : List DeploymentInstance) × (ordered_instances G stacks d ≡ ok (map some l))
        × IsDeployOrder d l
  unfolding ordered_instances deployment_order
  ordered_instances-IsDeployOrder d g valid =
      let (distinct, vertices, linked) = validate_no_cycles_lem G L stacks d.instances g valid in
      let (order, sorted, once, all, edges) = L.sorts g in
      let names = stack_names d.instances in
      let known = λ (x : String). contains-reverse order x ∙ all x ∙ vertices x in
      let (l, found, named) = find_each (reverse order) d.instances (λ x c. sym (known x) ∙ c) in
      let once' = reverse-Distinct order once in
      let find = λ (n : String). find_instance_by_stack_name n d.instances in
      (
        l,
        rw (valid, ordered_instances, sorted, deployment_order) (ap ok found),
        record {
          same = perm_of_somes l d.instances (
              subst₂ Perm found (find_all d.instances distinct)
                (Perm.map find (perm_of_Distinct (reverse order) names once' distinct known)));
          one_each = subst Distinct (sym named) once';
          after_needs =
              All-mono _ (ComesAfterNeeds l)
                (λ src linked dest needs. rw named (
                  precedes-reverse order dest src.stack_name
                  ∙ edges src.stack_name dest (linked dest needs)))
                d.instances linked;
        },
      )
