-- ===== src/Stack/Validation/Counting.antt =====
-- What `ValidateConsumedParameters` counts: for each consumed parameter, how often the required
-- stacks offer it.
use mathlib.Core.List.{append-eq-nil_iff}
use im_manager.Base.{
  ℕ, suc, ◌+◌, ◌≡◌, refl, sym, ◌∙◌, ap, String, Bool, true, false, ◌&&◌, ◌||◌, Option, none, some,
  List, [], ◌∷◌, ◌++◌, arith, ◌==◌, string_eq, nat_eq, if◌then◌else◌, All, All-mono, Bool-cases,
  inl, inr,
}
use im_manager.Base.Dict.{Dict, get, put, get-put, has_iff_get}
use im_manager.Errdef.{ok, join_errors-eq-ok}
use im_manager.Stack.Types.{Stack, StackDetail, StackParameters, ParameterProviders}
use im_manager.Stack.Validation.{
  Counts, consumed_names, count_name, count_parameters, count_providers, count_requires, counts,
  provider_errors, stack_errors, all_errors, validate_consumed_parameters,
}

-- How often the text stands in the list.
pub times : String → List String → ℕ
times x [] = 0
times x (y ∷ ys) = if x == y then suc (times x ys) else times x ys

times-append : (x : String) (xs ys : List String) → times x (xs ++ ys) ≡ times x xs + times x ys
unfolding times
times-append x [] ys = omega arith
times-append x (y ∷ xs) ys = ground (arith, times-append x xs ys)

-- The names of the parameters that a stack does not consume itself.
pub own_names : StackParameters → List String
own_names [] = []
own_names ((name, p) ∷ parameters) =
    let rest = own_names parameters in if p.consumed then rest else name ∷ rest

pub provided_names : ParameterProviders → List String
provided_names [] = []
provided_names ((name, _) ∷ providers) = name ∷ provided_names providers

-- What the required stacks offer: their own parameters, and what they have providers for.
pub offers : List StackDetail → List String
offers [] = []
offers (r ∷ requires) =
    own_names r.parameters ++ (provided_names r.parameter_providers ++ offers requires)

pub consumes : StackParameters → String → Bool
consumes [] x = false
consumes ((name, p) ∷ parameters) x = (x == name && p.consumed) || consumes parameters x

-- A count raised by `t`, if it is counted at all.
abbrev raised : Option ℕ → ℕ → Option ℕ
raised o t = elim o [ none ↦ none | some n ↦ some (n + t) ]

raised-raised : (o : Option ℕ) (s t : ℕ) → raised (raised o s) t ≡ raised o (s + t)
raised-raised none s t = refl
raised-raised (some n) s t = ap some (omega arith)

raised-zero : (o : Option ℕ) → raised o 0 ≡ o
raised-zero none = refl
raised-zero (some n) = ap some (omega arith)

count_name-providers :
    (r name : String) (c : Counts) (x : String)
    → get (count_name r name c).providers x ≡ raised (get c.providers x) (times x (name ∷ []))
unfolding count_name times
count_name-providers r name c x = ground (
  arith,
  has_iff_get c.providers name,
  raised-zero (get c.providers x),
  get-put c.providers name x (elim (get c.providers name) [ none ↦ 1 | some n ↦ n + 1 ]),
)

-- Two runs of counting, one after the other.
counted_both :
    (c d : Option ℕ) (x : String) (ys zs : List String) {e : Option ℕ}
    → e ≡ raised d (times x zs)
    → d ≡ raised c (times x ys)
    → e ≡ raised c (times x (ys ++ zs))
counted_both c d x ys zs p q =
    p
    ∙ ap (λ o. raised o (times x zs)) q
    ∙ raised-raised c (times x ys) (times x zs)
    ∙ ap (raised c) (sym (times-append x ys zs))

count_parameters-providers :
    (r : String) (ps : StackParameters) (c : Counts) (x : String)
    → get (count_parameters r ps c).providers x
      ≡ raised (get c.providers x) (times x (own_names ps))
unfolding count_parameters own_names times
count_parameters-providers r [] c x = sym (raised-zero (get c.providers x))
count_parameters-providers r ((name, p) ∷ ps) c x = elim (Bool-cases p.consumed) [
  | inl yes' ↦ rw yes' (count_parameters-providers r ps c x)
  | inr no' ↦ rw no' (
      counted_both (get c.providers x) _ x (name ∷ []) (own_names ps)
        (count_parameters-providers r ps (count_name r name c) x) (count_name-providers r name c x))
]

count_providers-providers :
    (r : String) (ps : ParameterProviders) (c : Counts) (x : String)
    → get (count_providers r ps c).providers x
      ≡ raised (get c.providers x) (times x (provided_names ps))
unfolding count_providers provided_names times
count_providers-providers r [] c x = sym (raised-zero (get c.providers x))
count_providers-providers r ((name, p) ∷ ps) c x =
    counted_both (get c.providers x) _ x (name ∷ []) (provided_names ps)
      (count_providers-providers r ps (count_name r name c) x) (count_name-providers r name c x)

count_requires-providers :
    (rs : List StackDetail) (c : Counts) (x : String)
    → get (count_requires rs c).providers x ≡ raised (get c.providers x) (times x (offers rs))
unfolding count_requires offers times
count_requires-providers [] c x = sym (raised-zero (get c.providers x))
count_requires-providers (r ∷ rs) c x =
    let c₁ = count_parameters r.name r.parameters c in
    let c₂ = count_providers r.name r.parameter_providers c₁ in
    counted_both (get c.providers x) (get c₁.providers x) x (own_names r.parameters)
      (provided_names r.parameter_providers ++ offers rs)
      (counted_both (get c₁.providers x) (get c₂.providers x) x
        (provided_names r.parameter_providers) (offers rs) (count_requires-providers rs c₂ x)
        (count_providers-providers r.name r.parameter_providers c₁ x))
      (count_parameters-providers r.name r.parameters c x)

initial :
    (ps : StackParameters) (m : Dict ℕ) (x : String)
    → get (consumed_names ps m) x ≡ (if consumes ps x then some 0 else get m x)
unfolding consumed_names consumes
initial [] m x = refl
initial ((name, p) ∷ ps) m x =
    ground (arith, initial ps m x, initial ps (put m name 0) x, get-put m name x 0)

-- The loops count, for each consumed parameter, how often the required stacks offer it.
pub counts-providers :
    (s : Stack) (x : String)
    → get (counts s).providers x
      ≡ (if consumes s.parameters x then some (times x (offers s.requires)) else none)
unfolding counts get
counts-providers s x =
    count_requires-providers s.requires _ x
    ∙ ap (λ o. raised o (times x (offers s.requires))) (initial s.parameters [] x)
    ∙ ground arith

provider_errors-nil :
    (m : Dict ℕ) (x : String) (n : ℕ) → provider_errors m ≡ [] → get m x ≡ some n → n ≡ 1
unfolding provider_errors get
provider_errors-nil [] x n e h = cc
provider_errors-nil ((y, k) ∷ m) x n e h = ground (arith, provider_errors-nil m x n)

all_errors-nil : (ss : List Stack) → all_errors ss ≡ [] → All (λ s. stack_errors s ≡ []) ss
unfolding all_errors
all_errors-nil [] e = tt
all_errors-nil (s ∷ ss) e =
    let (here, later) = append-eq-nil_iff.0 e in (here, all_errors-nil ss later)

-- Stacks that validate have exactly one offer for each parameter that they consume, among the
-- parameters that the required stacks do not consume themselves and the names that these provide.
pub validate_consumed_parameters-one_provider :
    (ss : List Stack)
    → validate_consumed_parameters ss ≡ ok tt
    → All (λ s. (x : String) → consumes s.parameters x ≡ true → times x (offers s.requires) ≡ 1) ss
unfolding validate_consumed_parameters stack_errors
validate_consumed_parameters-one_provider ss e =
    All-mono _ _
      (λ s none' x c.
        provider_errors-nil (counts s).providers x _ (append-eq-nil_iff.0 none').0
          (counts-providers s x ∙ rw c))
      ss (all_errors-nil ss (join_errors-eq-ok _ e))
