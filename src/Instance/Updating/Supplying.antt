-- ===== src/Instance/Updating/Supplying.antt =====
-- pkg/instance/service.go: the parameters that `UpdateInstanceParameters` puts in place of others.
use mathlib.Core.Path.{subst}
use mathlib.Core.Option.{some-injective}
use im_manager.Base.{
  String, ◌≡◌, refl, inl, inr, sym, ap, ◌∙◌, false, some, [], ◌∷◌, ◌==◌, string_eq, arith,
  Bool-cases,
}
use im_manager.Base.Dict.{get, put, has, get-put}
use im_manager.Base.Lists.{contains, Distinct}
use im_manager.Model.{DeploymentInstanceParameter, DeploymentInstanceParameters}
use im_manager.Instance.Saving.{names}
use im_manager.Instance.Updating.{supply}

-- The parameters after the update: those that are not supplied stay, the others have the supplied
-- values.
abbrev pub AreSupplied :
    DeploymentInstanceParameters
    → DeploymentInstanceParameters
    → DeploymentInstanceParameters
    → Type 0
AreSupplied old supplied new =
    (name : String)
    → (has supplied name ≡ false → get new name ≡ get old name)
      × ((p : DeploymentInstanceParameter)
          → get supplied name ≡ some p
          → (q : DeploymentInstanceParameter) × (get new name ≡ some q) × (q.value ≡ p.value))

has-names :
    (ps : DeploymentInstanceParameters) (name : String)
    → contains (names ps) name ≡ false
    → has ps name ≡ false
unfolding names contains has
has-names [] name h = refl
has-names ((k, p) ∷ ps) name h = ground (arith, has-names ps name)

supply-absent :
    (old supplied : DeploymentInstanceParameters) (name : String)
    → has supplied name ≡ false
    → get (supply old supplied) name ≡ get old name
unfolding supply has
supply-absent old [] name h = refl
supply-absent old ((k, p) ∷ supplied) name h =
    supply-absent (put old k _) supplied name (ground arith) ∙ get-put old k name _ ∙ (ground arith)

supply-present :
    (old supplied : DeploymentInstanceParameters) (name : String) (p : DeploymentInstanceParameter)
    → Distinct (names supplied)
    → get supplied name ≡ some p
    → (q : DeploymentInstanceParameter) × (get (supply old supplied) name ≡ some q)
      × (q.value ≡ p.value)
unfolding supply names get
supply-present old [] name p d e = cc
supply-present old ((k, x) ∷ supplied) name p d e = elim (Bool-cases (name == k)) [
  | inl here ↦
      let same : x ≡ p = some-injective x p (rw (here, get) at e) in
      let at : name ≡ k = ground arith in
      let others =
        has-names supplied name (subst (λ z. contains (names supplied) z ≡ false) (sym at) d.0) in
      (
        record { deployment_instance_id = 0; parameter_name = k; stack_name = ""; value = x.value },
        supply-absent (put old k _) supplied name others ∙ get-put old k name _ ∙ (ground arith),
        ap (λ z. z.value) same,
      )
  | inr later ↦ supply-present (put old k _) supplied name p d.1 (rw (later, get) at e)
]

pub supply-AreSupplied :
    (old supplied : DeploymentInstanceParameters)
    → Distinct (names supplied)
    → AreSupplied old supplied (supply old supplied)
supply-AreSupplied old supplied d name =
    (supply-absent old supplied name, λ p e. supply-present old supplied name p d e)
