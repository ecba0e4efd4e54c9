-- ===== src/Instance/Parameters/Consuming.antt =====
-- Consuming parameters changes the values of consumed parameters, and the groups of the sources.
use mathlib.Core.Path.{subst}
use mathlib.Core.Option.{some-injective}
use im_manager.Base.{
  ℕ, zero, suc, ◌≡◌, refl, sym, ◌∙◌, ap, String, true, false, Option, some, List, [], ◌∷◌, arith,
  ◌==◌, string_eq, if◌then◌else◌, Bool-cases, Option-cases, ◌⊎◌, inl, inr,
}
use im_manager.Base.Dict.{get, has, get-put, has-put}
use im_manager.Base.Lists.{get_elem?, modify}
use im_manager.Errdef.{ok, >>=-eq-ok, ok-injective}
use im_manager.Model.{
  Group, DeploymentInstance, DeploymentInstanceParameter, DeploymentInstanceParameters,
}
use im_manager.Stack
use im_manager.Stack.{Stack, StackDetail, Stacks}
use im_manager.Instance.Links.{find_instance_by_stack_name}
use im_manager.Instance.Parameters.{
  is_consumed, set_source, consume, set_parameter, consume_required, resolve_consumed_parameters,
}

-- One required stack changes the group of its instance, or nothing.
consume-eq-ok :
    (is : List DeploymentInstance) (instance : DeploymentInstance) (required : StackDetail)
    (name : String) (p : DeploymentInstanceParameter) (js : List DeploymentInstance)
    (q : DeploymentInstanceParameter)
    → consume is instance required name p ≡ ok (js, q)
    → (js ≡ is)
      ⊎ ((source : DeploymentInstance) × (find_instance_by_stack_name required.name is
            ≡ some source)
          × (js ≡ set_source required.name (record source { group = instance.group }) is))
unfolding consume
consume-eq-ok is instance required name p js q e =
    elim (Option-cases (find_instance_by_stack_name required.name is)) [
      | inl missing ↦ ground arith
      | inr (source, found) ↦ elim (Option-cases (get required.parameter_providers name)) [
        | inl no_provider ↦ inl (ground arith)
        | inr (provide, provided) ↦ inr (source, found, ground arith)
      ]
    ]

module _ (stacks : Stacks) where
  -- From `i` to `j` no parameter came or went, and no parameter that the stack does not consume
  -- has changed.
  pub record Preserved (i j : DeploymentInstance) : Type 0 where
    pub same_id : j.id ≡ i.id
    pub same_stack : j.stack_name ≡ i.stack_name
    pub keys : (x : String) → has j.parameters x ≡ has i.parameters x
    pub fixed :
        (stack : Stack) (x : String)
        → Stack.find stacks i.stack_name ≡ ok stack
        → is_consumed stack x ≡ false
        → get j.parameters x ≡ get i.parameters x

  pub Preserved-refl : (i : DeploymentInstance) → Preserved i i
  Preserved-refl i = record {
    same_id = refl;
    same_stack = refl;
    keys = λ x. refl;
    fixed = λ stack x f c. refl;
  }

  Preserved-refl-group :
      (i : DeploymentInstance) (g : Option Group) → Preserved i (record i { group = g })
  Preserved-refl-group i g = record {
    same_id = refl;
    same_stack = refl;
    keys = λ x. refl;
    fixed = λ stack x f c. refl;
  }

  pub Preserved-trans : {i j l : DeploymentInstance} → Preserved i j → Preserved j l → Preserved i l
  Preserved-trans p q = record {
    same_id = q.same_id ∙ p.same_id;
    same_stack = q.same_stack ∙ p.same_stack;
    keys = λ x. q.keys x ∙ p.keys x;
    fixed = λ stack x f c.
        q.fixed stack x (ap (Stack.find stacks) p.same_stack ∙ f) c ∙ p.fixed stack x f c;
  }

  -- Every instance of the first list stands at its position in the second, preserved.
  abbrev pub AllPreserved : List DeploymentInstance → List DeploymentInstance → Type 0
  AllPreserved is js =
      (m : ℕ) (i : DeploymentInstance)
      → get_elem? is m ≡ some i
      → (j : DeploymentInstance) × (get_elem? js m ≡ some j) × Preserved i j

  AllPreserved-ok : (is js : List DeploymentInstance) → ok is ≡ ok js → AllPreserved is js
  AllPreserved-ok is js e =
      subst (AllPreserved is) (ok-injective e) (λ m i f. (i, f, Preserved-refl i))

  AllPreserved-trans :
      (is js ls : List DeploymentInstance)
      → AllPreserved is js
      → AllPreserved js ls
      → AllPreserved is ls
  AllPreserved-trans is js ls p q m i e =
      let (j, f, r) = p m i e in let (l, g, s) = q m j f in (l, g, Preserved-trans r s)

  AllPreserved-set_source :
      (name : String) (source source' : DeploymentInstance) (is : List DeploymentInstance)
      → find_instance_by_stack_name name is ≡ some source
      → Preserved source source'
      → AllPreserved is (set_source name source' is)
  unfolding set_source find_instance_by_stack_name get_elem?
  AllPreserved-set_source name s s' [] f p m i e = cc
  AllPreserved-set_source name s s' (x ∷ is) f p zero i e =
      elim (Bool-cases (x.stack_name == name)) [
        | inl hit ↦
            let same : s ≡ i = ground arith in rw hit (s', refl, subst (λ t. Preserved t s') same p)
        | inr miss ↦ rw miss (i, e, Preserved-refl i)
      ]
  AllPreserved-set_source name s s' (x ∷ is) f p (suc m) i e =
      elim (Bool-cases (x.stack_name == name)) [
        | inl hit ↦ rw hit (i, e, Preserved-refl i)
        | inr miss ↦ rw miss (AllPreserved-set_source name s s' is (ground arith) p m i e)
      ]

  AllPreserved-modify :
      (f : DeploymentInstance → DeploymentInstance) (is : List DeploymentInstance) (k : ℕ)
      → ((i : DeploymentInstance) → get_elem? is k ≡ some i → Preserved i (f i))
      → AllPreserved is (modify is k f)
  unfolding modify get_elem?
  AllPreserved-modify f [] k h m i e = cc
  AllPreserved-modify f (x ∷ is) zero h zero i e =
      (f x, refl, subst (λ t. Preserved t (f x)) (some-injective x i e) (h x refl))
  AllPreserved-modify f (x ∷ is) zero h (suc m) i e = (i, e, Preserved-refl i)
  AllPreserved-modify f (x ∷ is) (suc k) h zero i e = (i, e, Preserved-refl i)
  AllPreserved-modify f (x ∷ is) (suc k) h (suc m) i e = AllPreserved-modify f is k h m i e

  consume_lem :
      (is : List DeploymentInstance) (instance : DeploymentInstance) (required : StackDetail)
      (name : String) (p : DeploymentInstanceParameter) (js : List DeploymentInstance)
      (q : DeploymentInstanceParameter)
      → consume is instance required name p ≡ ok (js, q)
      → AllPreserved is js
  consume_lem is instance required name p js q e =
      elim (consume-eq-ok is instance required name p js q e) [
        | inl same ↦ subst (AllPreserved is) (sym same) (λ m i f. (i, f, Preserved-refl i))
        | inr (source, found, changed) ↦ subst (AllPreserved is) (sym changed) (
            AllPreserved-set_source required.name source (record source { group = instance.group })
              is found (Preserved-refl-group source instance.group))
      ]

  -- The instance at position `k` has the parameter, and its stack consumes it.
  abbrev Consumes : List DeploymentInstance → ℕ → String → Type 0
  Consumes is k name =
      (i : DeploymentInstance)
      → get_elem? is k ≡ some i
      → (has i.parameters name ≡ true)
        × ((stack : Stack)
            → Stack.find stacks i.stack_name ≡ ok stack
            → is_consumed stack name ≡ true)

  set_parameter_lem :
      (name : String) (p : DeploymentInstanceParameter) (i : DeploymentInstance)
      → (has i.parameters name ≡ true)
        × ((stack : Stack)
            → Stack.find stacks i.stack_name ≡ ok stack
            → is_consumed stack name ≡ true)
      → Preserved i (set_parameter name p i)
  set_parameter_lem name p i c = record {
    same_id = refl;
    same_stack = refl;
    keys = λ x. ground (arith, has-put i.parameters name x p);
    fixed = λ stack x f n. ground (arith, get-put i.parameters name x p, c.1 stack f);
  }

  Consumes-AllPreserved :
      (is js : List DeploymentInstance) (k : ℕ) (name : String) (i : DeploymentInstance)
      → get_elem? is k ≡ some i
      → AllPreserved is js
      → Consumes is k name
      → Consumes js k name
  Consumes-AllPreserved is js k name i at p c j' at' =
      let (j, f, r) = p k i at in
      let same : j ≡ j' = ground arith in
      let (h, s) = c i at in
      subst
        (λ t.
          (has t.parameters name ≡ true)
          × ((stack : Stack)
              → Stack.find stacks t.stack_name ≡ ok stack
              → is_consumed stack name ≡ true))
        same
        (
          r.keys name ∙ h,
          λ stack found. s stack (ap (Stack.find stacks) (sym r.same_stack) ∙ found),
        )

  consume_required_lem :
      (is : List DeploymentInstance) (k : ℕ) (rs : List StackDetail) (name : String)
      (p : DeploymentInstanceParameter) (js : List DeploymentInstance)
      → Consumes is k name
      → consume_required is k rs name p ≡ ok js
      → AllPreserved is js
  unfolding consume_required
  consume_required_lem is k [] name p js c e = AllPreserved-ok is js e
  consume_required_lem is k (r ∷ rs) name p js c e = elim (Option-cases (get_elem? is k)) [
    | inl out ↦ AllPreserved-ok is js (rw (out, consume_required) at e)
    | inr (i, at) ↦
        let e₁ = rw (at, consume_required) at e in
        let (made, one, e₂) = >>=-eq-ok (consume is i r name p) _ e₁ in
        let (is', p') = made in
        let a = consume_lem is i r name p is' p' one in
        let c' = Consumes-AllPreserved is is' k name i at a c in
        let is'' = modify is' k (set_parameter name p') in
        let b =
          AllPreserved-modify (set_parameter name p') is' k
            (λ j at'. set_parameter_lem name p' j (c' j at')) in
        let ab = AllPreserved-trans is is' is'' a b in
        let c'' = Consumes-AllPreserved is is'' k name i at ab c in
        AllPreserved-trans is is'' js ab (consume_required_lem is'' k rs name p' js c'' e₂)
  ]

  -- The parameters of the list are parameters of the instance at position `k`, of stack `stack`.
  abbrev AtInstance : List DeploymentInstance → ℕ → Stack → DeploymentInstanceParameters → Type 0
  AtInstance is k stack ps =
      (i : DeploymentInstance)
      → get_elem? is k ≡ some i
      → (Stack.find stacks i.stack_name ≡ ok stack)
        × ((x : String) → has ps x ≡ true → has i.parameters x ≡ true)

  AtInstance-AllPreserved :
      (is js : List DeploymentInstance) (k : ℕ) (stack : Stack) (ps : DeploymentInstanceParameters)
      (i : DeploymentInstance)
      → get_elem? is k ≡ some i
      → AllPreserved is js
      → AtInstance is k stack ps
      → AtInstance js k stack ps
  AtInstance-AllPreserved is js k stack ps i at p c j' at' =
      let (j, f, r) = p k i at in
      let same : j ≡ j' = ground arith in
      let (s, h) = c i at in
      subst
        (λ t.
          (Stack.find stacks t.stack_name ≡ ok stack)
          × ((x : String) → has ps x ≡ true → has t.parameters x ≡ true))
        same (ap (Stack.find stacks) r.same_stack ∙ s, λ x y. r.keys x ∙ h x y)

  -- One round of the loop.
  consume_if :
      (is : List DeploymentInstance) (k : ℕ) (stack : Stack) (name : String)
      (p : DeploymentInstanceParameter) (ps : DeploymentInstanceParameters)
      (js : List DeploymentInstance)
      → AtInstance is k stack ((name, p) ∷ ps)
      → (if is_consumed stack name then consume_required is k stack.requires name p else ok is)
        ≡ ok js
      → AllPreserved is js
  unfolding has
  consume_if is k stack name p ps js c e = elim (Bool-cases (is_consumed stack name)) [
    | inl consumed ↦
        consume_required_lem is k stack.requires name p js
          (λ i at.
            let (s, h) = c i at in
            (
              h name (ground arith),
              λ stack' f.
                  subst (λ t. is_consumed t name ≡ true) (ok-injective (sym s ∙ f)) consumed,
            ))
          (rw consumed at e)
    | inr supplied ↦ AllPreserved-ok is js (rw supplied at e)
  ]

  pub resolve_consumed_parameters_lem :
      (is : List DeploymentInstance) (k : ℕ) (stack : Stack) (ps : DeploymentInstanceParameters)
      (js : List DeploymentInstance) (i : DeploymentInstance)
      → get_elem? is k ≡ some i
      → AtInstance is k stack ps
      → resolve_consumed_parameters is k stack ps ≡ ok js
      → AllPreserved is js
  unfolding resolve_consumed_parameters has
  resolve_consumed_parameters_lem is k stack [] js i at c e = AllPreserved-ok is js e
  resolve_consumed_parameters_lem is k stack ((name, p) ∷ ps) js i at c e =
      let (is', one, more) =
        >>=-eq-ok
          (if is_consumed stack name then consume_required is k stack.requires name p else ok is) _
          e in
      let a = consume_if is k stack name p ps is' c one in
      let (j, at', _) = a k i at in
      let c' =
        AtInstance-AllPreserved is is' k stack ps i at a
          (λ i' at''. let (s, h) = c i' at'' in (s, λ x y. h x (ground arith))) in
      AllPreserved-trans is is' js a
        (resolve_consumed_parameters_lem is' k stack ps js j at' c' more)
