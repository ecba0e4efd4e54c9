-- ===== src/Instance/Parameters/Resolving.antt =====
-- What `resolveParameters` leaves in each instance of the deployment.
use mathlib.Core.Path.{subst}
use mathlib.Core.Option.{some-injective, none-ne-some}
use native.Mathlib.Decide.{ℕ_discrete}
use im_manager.Base.{
  ℕ, zero, suc, ◌+◌, ◌≤◌, ◌<◌, ◌≡◌, ◌≢◌, sym, ◌∙◌, ap, String, true, false, some, List, arith,
  Option-cases, inl, inr,
}
use im_manager.Base.Dict.{get, has, has_iff_get}
use im_manager.Base.Lists.{
  length, get_elem?, modify, get_elem?-modify_self, get_elem?-modify_ne, get_elem?-none,
  get_elem?-lt-length,
}
use im_manager.Errdef.{ok, >>=-eq-ok, ok-injective}
use im_manager.Model.{DeploymentInstance, DeploymentInstanceParameter, DeploymentInstanceParameters}
use im_manager.Stack
use im_manager.Stack.{Stack, Stacks}
use im_manager.Instance.Parameters.{
  is_consumed, validate_parameter, add_default_parameter_values, reject_non_existing_parameters,
  validate_parameters, resolve_instance, resolve_from, resolve_parameters,
}
use im_manager.Instance.Parameters.Preparing.{
  supplied_or_default, get-add_default_parameter_values, reject_non_existing_parameters-eq-ok,
  validate_parameters-eq-ok,
}
use im_manager.Instance.Parameters.Consuming.{
  Preserved, Preserved-refl, Preserved-trans, AllPreserved, resolve_consumed_parameters_lem,
}

-- The names of the parameters are those of the stack, once the supplied names are known ones.
prepared_keys :
    (ps : DeploymentInstanceParameters) (stack : Stack)
    → ((x : String) → has ps x ≡ true → has stack.parameters x ≡ true)
    → (x : String)
    → has (add_default_parameter_values ps stack.parameters) x ≡ has stack.parameters x
prepared_keys ps stack known x = ground (
  arith,
  known x,
  has_iff_get ps x,
  has_iff_get stack.parameters x,
  has_iff_get (add_default_parameter_values ps stack.parameters) x,
  get-add_default_parameter_values ps stack.parameters x,
)

module _ (stacks : Stacks) where
  -- `j` is `i` with its parameters resolved: it has the parameters of its stack and no others; those
  -- that the stack does not consume have the supplied value, or else the default, and are valid.
  pub record Resolved (i j : DeploymentInstance) : Type 0 where
    pub same_id : j.id ≡ i.id
    pub same_stack : j.stack_name ≡ i.stack_name
    pub stack : Stack
    pub found : Stack.find stacks i.stack_name ≡ ok stack
    pub keys : (x : String) → has j.parameters x ≡ has stack.parameters x
    pub values :
        (x : String)
        → is_consumed stack x ≡ false
        → get j.parameters x ≡ supplied_or_default i.parameters stack.parameters x
    pub valid :
        (x : String) (p : DeploymentInstanceParameter)
        → is_consumed stack x ≡ false
        → get j.parameters x ≡ some p
        → validate_parameter stack x p ≡ ok tt

  Resolved-Preserved :
      {i j l : DeploymentInstance} → Resolved i j → Preserved stacks j l → Resolved i l
  Resolved-Preserved {j} {l} r p =
      let found = ap (Stack.find stacks) r.same_stack ∙ r.found in
      record {
        same_id = p.same_id ∙ r.same_id;
        same_stack = p.same_stack ∙ r.same_stack;
        stack = r.stack;
        found = r.found;
        keys = λ x. p.keys x ∙ r.keys x;
        values = λ x c. p.fixed r.stack x found c ∙ r.values x c;
        valid = λ x q c e. r.valid x q c (sym (p.fixed r.stack x found c) ∙ e);
      }

  Preserved-Resolved :
      {i j l : DeploymentInstance} → Preserved stacks i j → Resolved j l → Resolved i l
  Preserved-Resolved {i} {j} {l} p r =
      let found = sym (ap (Stack.find stacks) p.same_stack) ∙ r.found in
      record {
        same_id = r.same_id ∙ p.same_id;
        same_stack = r.same_stack ∙ p.same_stack;
        stack = r.stack;
        found = found;
        keys = r.keys;
        values = λ x c. ground (arith, r.values x c, p.fixed r.stack x found c);
        valid = r.valid;
      }

  -- What the list holds at a position after one round: resolved at `k`, preserved elsewhere.
  abbrev AfterRound : List DeploymentInstance → ℕ → ℕ → DeploymentInstance → Type 0
  AfterRound js k m i =
      (j : DeploymentInstance) × (get_elem? js m ≡ some j)
      × (m ≢ k → Preserved stacks i j)
      × (m ≡ k → Resolved i j)

  abbrev prepared : DeploymentInstance → Stack → DeploymentInstance
  prepared i stack = record i {
    parameters = add_default_parameter_values i.parameters stack.parameters;
  }

  -- The instance at its position once its parameters are prepared, and others consumed.
  prepared-Resolved :
      (i j : DeploymentInstance) (stack : Stack)
      → Stack.find stacks i.stack_name ≡ ok stack
      → reject_non_existing_parameters i.parameters stack ≡ ok tt
      → validate_parameters (prepared i stack).parameters stack ≡ ok tt
      → Preserved stacks (prepared i stack) j
      → Resolved i j
  prepared-Resolved i j stack found known valid p = record {
    same_id = p.same_id;
    same_stack = p.same_stack;
    stack = stack;
    found = found;
    keys = λ x.
        p.keys x
        ∙ prepared_keys i.parameters stack
            (reject_non_existing_parameters-eq-ok i.parameters stack known) x;
    values = λ x c.
        p.fixed stack x found c ∙ get-add_default_parameter_values i.parameters stack.parameters x;
    valid = λ x q c e.
        validate_parameters-eq-ok (prepared i stack).parameters stack valid x q
          (sym (p.fixed stack x found c) ∙ e);
  }

  -- The rest of a round, on the instance that was prepared.
  round_lem :
      (is : List DeploymentInstance) (k : ℕ) (i : DeploymentInstance) (stack : Stack)
      (js : List DeploymentInstance)
      → get_elem? is k ≡ some i
      → Stack.find stacks i.stack_name ≡ ok stack
      → reject_non_existing_parameters i.parameters stack ≡ ok tt
      → validate_parameters (prepared i stack).parameters stack ≡ ok tt
      → AllPreserved stacks
          (modify is k (λ t. record t { parameters = (prepared i stack).parameters }))
          js
      → (m : ℕ) (i' : DeploymentInstance) → get_elem? is m ≡ some i'
      → AfterRound js k m i'
  round_lem is k i stack js at found known valid all m i' f =
      let set =
        λ (t : DeploymentInstance). record t { parameters = (prepared i stack).parameters } in
      elim (ℕ_discrete m k) [
        | yes same ↦
            let (j, g, p) = all k (prepared i stack) (get_elem?-modify_self is k set at) in
            let it : i ≡ i' = some-injective i i' (sym at ∙ ap (get_elem? is) (sym same) ∙ f) in
            (
              j,
              ap (get_elem? js) same ∙ g,
              λ other. absurd (other same),
              λ _. subst (λ t. Resolved t j) it (prepared-Resolved i j stack found known valid p),
            )
        | no other ↦
            let (j, g, p) = all m i' (get_elem?-modify_ne is k m set other ∙ f) in
            (j, g, (λ _. p), λ same. absurd (other same))
      ]

  resolve_instance_lem :
      (is : List DeploymentInstance) (k : ℕ) (i : DeploymentInstance) (js : List DeploymentInstance)
      → get_elem? is k ≡ some i
      → resolve_instance stacks is k i ≡ ok js
      → (m : ℕ) (i' : DeploymentInstance) → get_elem? is m ≡ some i'
      → AfterRound js k m i'
  unfolding resolve_instance
  resolve_instance_lem is k i js at e =
      let (stack, found, e₁) = >>=-eq-ok (Stack.find stacks i.stack_name) _ e in
      let (_, known, e₂) = >>=-eq-ok (reject_non_existing_parameters i.parameters stack) _ e₁ in
      let ps = add_default_parameter_values i.parameters stack.parameters in
      let (_, valid, e₃) = >>=-eq-ok (validate_parameters ps stack) _ e₂ in
      let set = λ (t : DeploymentInstance). record t { parameters = ps } in
      let at' = get_elem?-modify_self is k set at in
      round_lem is k i stack js at found known valid (
        resolve_consumed_parameters_lem stacks (modify is k set) k stack ps js (prepared i stack)
          at'
          (λ t f.
            subst
              (λ (u : DeploymentInstance).
                (Stack.find stacks u.stack_name ≡ ok stack)
                × ((x : String) → has ps x ≡ true → has u.parameters x ≡ true))
              (some-injective (prepared i stack) t (sym at' ∙ f)) (found, λ x h. h))
          e₃)

  AfterRounds-cons :
      (js : List DeploymentInstance) (k rounds m : ℕ) (i j l : DeploymentInstance)
      → (m ≢ k → Preserved stacks i j)
      → (m ≡ k → Resolved i j)
      → (m < suc k → Preserved stacks j l)
      → (suc k ≤ m → m < suc k + rounds → Resolved j l)
      → (m < k → Preserved stacks i l) × (k ≤ m → m < k + suc rounds → Resolved i l)
  AfterRounds-cons js k rounds m i j l p r q s = (
    (λ lt. Preserved-trans stacks (p (omega arith)) (q (omega arith))),
    λ le lt. elim (ℕ_discrete m k) [
      | yes same ↦ Resolved-Preserved (r same) (q (omega arith))
      | no other ↦ Preserved-Resolved (p other) (s (omega arith) (omega arith))
    ],
  )

  resolve_from_lem :
      (rounds : ℕ) (is : List DeploymentInstance) (k : ℕ) (js : List DeploymentInstance)
      → resolve_from stacks rounds is k ≡ ok js
      → (m : ℕ) (i : DeploymentInstance) → get_elem? is m ≡ some i
      → (l : DeploymentInstance) × (get_elem? js m ≡ some l)
        × (m < k → Preserved stacks i l)
        × (k ≤ m → m < k + rounds → Resolved i l)
  unfolding resolve_from
  resolve_from_lem zero is k js e m i f = (
    i,
    ap (λ t. get_elem? t m) (sym (ok-injective e)) ∙ f,
    (λ _. Preserved-refl stacks i),
    λ le lt. absurd (omega arith),
  )
  resolve_from_lem (suc rounds) is k js e m i f = elim (Option-cases (get_elem? is k)) [
    | inl out ↦
        let same = ok-injective (rw (out, resolve_from) at e) in
        (
          i,
          ap (λ t. get_elem? t m) (sym same) ∙ f,
          (λ _. Preserved-refl stacks i),
          λ le lt. absurd (none-ne-some i (sym (get_elem?-none is k m out le) ∙ f)),
        )
    | inr (x, at) ↦
        let (is', one, more) =
          >>=-eq-ok (resolve_instance stacks is k x) _ (rw (at, resolve_from) at e) in
        let (j, g, p, r) = resolve_instance_lem is k x is' at one m i f in
        let (l, h, q, s) = resolve_from_lem rounds is' (suc k) js more m j g in
        let (u, v) = AfterRounds-cons js k rounds m i j l p r q s in (l, h, u, v)
  ]

  -- When `resolveParameters` succeeds, every instance of the deployment is resolved: it keeps its id
  -- and stack, its parameters are exactly those of its stack, and each parameter that the stack does
  -- not consume has the supplied value, or the default if none was supplied, and passes the stack's
  -- validator.
  pub resolve_parameters-Resolved :
      (is js : List DeploymentInstance)
      → resolve_parameters stacks is ≡ ok js
      → (m : ℕ) (i : DeploymentInstance) → get_elem? is m ≡ some i
      → (j : DeploymentInstance) × (get_elem? js m ≡ some j) × Resolved i j
  unfolding resolve_parameters
  resolve_parameters-Resolved is js e m i f =
      let (l, h, _, r) = resolve_from_lem (length is) is 0 js e m i f in
      (l, h, r (omega arith) (omega (arith, get_elem?-lt-length is m f)))
