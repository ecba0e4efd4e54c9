-- ===== src/Deployment/Seed.antt =====
-- Which data base seeds the instances of a deployment, and `UpdateDeployment`.
use mathlib.Core.Path.{sym, ap}
use mathlib.Core.Option.{some-injective, none-ne-some}
use im_manager.Base.{
  ℕ, zero, suc, ◌^◌, ◌<◌, String, ◌<>◌, ◌≡◌, ◌≢◌, refl, ◌∙◌, ◌⊎◌, inl, inr, Option, none, some,
  List, [], ◌∷◌, ◌++◌, map, arith, All, Option-cases, nat_eq, string_eq, ◌==◌, Bool-cases,
}
use im_manager.Base.Dict.{Dict, get, put}
use im_manager.Base.Decimal.{parse_uint, parse_uint-range}
use im_manager.Errdef.{ok, wrap, ok-injective}
use im_manager.Action.{on_failure, continued-eq-ok, replaced-eq-ok}
use im_manager.Model.{DeploymentInstance, Deployment, Database}
use im_manager.Graph.{GraphLib}
use im_manager.Stack.{Stacks}
use im_manager.Deployment.{
  Services, database_id_of, database_id_from_instances, seed_link, filestore_seed, database_seed,
  build_seed, deploy_deployment,
}

database_id_of-range :
    (i : DeploymentInstance) (n : ℕ) → database_id_of i ≡ some n → (0 < n) × (n < 2 ^ 64)
unfolding database_id_of
database_id_of-range i n e = elim (Option-cases (get i.parameters "DATABASE_ID")) [
  | inl none' ↦ absurd (none-ne-some n (rw (none', database_id_of) at e))
  | inr (p, at) ↦ elim (Option-cases (parse_uint p.value)) [
    | inl none' ↦ absurd (none-ne-some n (rw (at, none', database_id_of) at e))
    | inr (zero, is') ↦ absurd (none-ne-some n (rw (at, is', database_id_of) at e))
    | inr (suc m, is') ↦
        let same : suc m ≡ n = some-injective (suc m) n (rw (at, is', database_id_of) at e) in
        let small = parse_uint-range p.value (suc m) is' in (omega arith, omega arith)
  ]
]

-- The id is that of the first instance that has one: a number of 64 bits, and not 0.
pub database_id_from_instances-eq-ok :
    (is : List DeploymentInstance) (n : ℕ)
    → database_id_from_instances (map some is) ≡ ok (some n)
    → (before : List DeploymentInstance) × (i : DeploymentInstance) × (after : List
        DeploymentInstance)
      × (is ≡ before ++ i ∷ after)
      × All (λ j. database_id_of j ≡ none) before
      × (database_id_of i ≡ some n)
      × (0 < n)
      × (n < 2 ^ 64)
unfolding database_id_from_instances
database_id_from_instances-eq-ok [] n e = cc
database_id_from_instances-eq-ok (i ∷ is) n e = elim (Option-cases (database_id_of i)) [
  | inl none' ↦
      let (before, j, after, same, skipped, found, pos, small) =
        database_id_from_instances-eq-ok is n (rw (none', database_id_from_instances) at e) in
      (i ∷ before, j, after, cc, (none', skipped), found, pos, small)
  | inr (m, some') ↦
      let found : some m ≡ some n = ok-injective (rw (some', database_id_from_instances) at e) in
      let here = some' ∙ found in
      let (pos, small) = database_id_of-range i n here in ([], i, is, refl, tt, here, pos, small)
]

module _ {W : Type 0} (S : Services W) (hostname : String) where
  -- The URL of a download.
  abbrev pub url_of : String → String
  url_of uuid = hostname <> ("/databases/external/" <> uuid)

  -- What is added for a filestore, if the database has one: the URL of a download that was made for
  -- that filestore, and the filestore.
  abbrev pub HasFilestore : Database → String → Dict String → Option Database → W → W → Type 0
  HasFilestore db url env fs w w' =
      ((db.filestore_id ≡ 0) × (env ≡ ("DATABASE_DOWNLOAD_URL", url) ∷ []) × (fs ≡ none) × (w' ≡ w))
      ⊎ ((db.filestore_id ≢ 0)
          × ((uuid : String) × (f : Database) × (v : W) × (S.create_external_download
                  db.filestore_id 1800 w
                ≡ (ok uuid, v))
              × (S.find_database db.filestore_id v ≡ (ok f, w'))
              × (env
                  ≡ ("DATABASE_DOWNLOAD_URL", url) ∷ ("FILESTORE_DOWNLOAD_URL", url_of uuid) ∷ [])
              × (fs ≡ some f)))

  filestore_seed-HasFilestore :
      (db : Database) (url : String) (env : Dict String) (fs : Option Database) (w w' : W)
      → filestore_seed S hostname db (("DATABASE_DOWNLOAD_URL", url) ∷ []) w ≡ (ok (env, fs), w')
      → HasFilestore db url env fs w w'
  unfolding filestore_seed seed_link put string_eq
  filestore_seed-HasFilestore db url env fs w w' e = elim (Bool-cases (db.filestore_id == 0)) [
    | inl none' ↦
        let done' = rw (none', filestore_seed) at e in
        let same : (("DATABASE_DOWNLOAD_URL", url) ∷ [], none) ≡ (env, fs) =
          ok-injective (ap (λ r. r.0) done') in
        inl (
          ground arith,
          sym (ap (λ r. r.0) same),
          sym (ap (λ r. r.1) same),
          sym (ap (λ r. r.1) done'),
        )
    | inr some' ↦
        let (uuid, w₁, linked, e₁) =
          continued-eq-ok
            (seed_link S hostname db.filestore_id
              "failed to create seed download link for filestore %d: " w)
            _ (rw (some', filestore_seed) at e) in
        let (f, w₂, read, e₂) =
          continued-eq-ok
            (on_failure (S.find_database db.filestore_id) (wrap "filestore %d not found: ") w₁) _
            e₁ in
        let same : (
          ("DATABASE_DOWNLOAD_URL", url) ∷ ("FILESTORE_DOWNLOAD_URL", url_of uuid) ∷ [],
          some f,
        )
            ≡ (env, fs) =
          ok-injective (ap (λ r. r.0) e₂) in
        inr (
          ground arith,
          (
            uuid,
            f,
            w₁,
            replaced-eq-ok _ (S.create_external_download db.filestore_id 1800 w) linked,
            replaced-eq-ok _ (S.find_database db.filestore_id w₁) read
                ∙ ap (λ x. (ok f, x)) (ap (λ r. r.1) e₂),
            sym (ap (λ r. r.0) same),
            sym (ap (λ r. r.1) same),
          ),
        )
  ]

  -- When `buildSeed` succeeds for instances that name a data base, it has found that data base, and
  -- made a link for it that is valid for 1800 seconds. If the data base has no filestore, the
  -- environment is the URL of that link. Otherwise it also has the URL of a link for the filestore,
  -- valid as long, and the filestore is found and returned.
  pub build_seed-eq-ok :
      (is : List (Option DeploymentInstance)) (id : ℕ) (env : Dict String) (fs : Option Database)
      (w w' : W)
      → database_id_from_instances is ≡ ok (some id)
      → build_seed S hostname is w ≡ (ok (env, fs), w')
      → (db : Database) × (uuid : String) × (w₁ w₂ : W) × (S.find_database id w ≡ (ok db, w₁))
        × (S.create_external_download db.id 1800 w₁ ≡ (ok uuid, w₂))
        × HasFilestore db (url_of uuid) env fs w₂ w'
  unfolding build_seed database_seed seed_link put string_eq
  build_seed-eq-ok is id env fs w w' named e =
      let (db, w₁, found, e₁) =
        continued-eq-ok (on_failure (S.find_database id) (wrap "database %d not found: ") w) _
          (rw (named, build_seed) at e) in
      let (uuid, w₂, linked, e₂) =
        continued-eq-ok
          (seed_link S hostname db.id "failed to create seed download link for database %d: " w₁) _
          e₁ in
      (
        db,
        uuid,
        w₁,
        w₂,
        replaced-eq-ok _ (S.find_database id w) found,
        replaced-eq-ok _ (S.create_external_download db.id 1800 w₁) linked,
        filestore_seed-HasFilestore db (url_of uuid) env fs w₂ w' e₂,
      )

module _ {W : Type 0} (S : Services W) (hostname : String) (G : GraphLib) (stacks : Stacks) where
  -- The instances are deployed anew, if the TTL changed.
  abbrev pub Redeployed : String → Deployment → Deployment → W → W → Type 0
  Redeployed token old new w w' =
      ((old.ttl ≡ new.ttl) × (w' ≡ w))
      ⊎ ((old.ttl ≢ new.ttl) × (deploy_deployment S hostname G stacks token new w ≡ (ok tt, w')))
