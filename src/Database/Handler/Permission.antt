-- ===== src/Database/Handler/Permission.antt =====
-- pkg/database/handler.go: who may have a database changed.
use im_manager.Base.{
  ℕ, ◌^◌, ◌≡◌, refl, String, Bool, true, Option, none, some, if◌then◌else◌, ltb, inl, inr,
  Bool-cases,
}
use im_manager.Base.Decimal.{parse_uint}
use im_manager.Errdef.{ok, Result-cases}
use im_manager.Action.{Action}
use im_manager.Model.{User, Database}
use im_manager.Authorize.{can_access}
use im_manager.Database.Tables.{Tables}
use im_manager.Database.Repository
use im_manager.Database.Service
use im_manager.Database.Service.{Files}
use im_manager.Database.Handler.{Others, access}
use im_manager.Database.Handler.Records.{
  CopyDatabaseRequest, LockDatabaseRequest, UpdateDatabaseRequest, CreateExternalDatabaseRequest,
}
use im_manager.Database.Handler.Instances.{SaveAsRequest}
use im_manager.Web.{Request, get_user_from_context, parse_uint_32, value_of}
use im_manager.Web.Laws.{get_user_from_context-eq-ok}

-- The requests that change something.
pub data Change : Type 0 where
  uploading : Request (Unit {0}) → Change
  saving_as : Request SaveAsRequest → Change
  saving : Request (Unit {0}) → Change
  copying : Request CopyDatabaseRequest → Change
  locking : Request LockDatabaseRequest → Change
  unlocking : Request (Unit {0}) → Change
  deleting : Request (Unit {0}) → Change
  updating : Request UpdateDatabaseRequest → Change
  creating_download : Request CreateExternalDatabaseRequest → Change

-- The lookups of the other services leave the world as it is.
pub record AreLookups {W : Type 0} (O : Others W) : Type 0 where
  pub group_kept : (name : String) (w : W) → (O.find_group name w).1 ≡ w
  pub instance_kept : (id : ℕ) (w : W) → (O.find_decrypted_deployment_instance_by_id id w).1 ≡ w
  pub deployment_kept : (id : ℕ) (w : W) → (O.find_deployment_by_id id w).1 ≡ w

pub access-eq-ok :
    {B : Type 0} (r : Request B) (d : Database) (u : Unit {0})
    → access r d ≡ ok u
    → (user : User) × (r.user ≡ some user) × (can_access user d ≡ true)
unfolding access
access-eq-ok r d u e = elim (Result-cases (get_user_from_context r)) [
  | inr (x, failed) ↦ absurd (cc (rw (failed, access) at e))
  | inl (user, there) ↦ elim (Bool-cases (can_access user d)) [
    | inl may ↦ (user, get_user_from_context-eq-ok r user there, may)
    | inr h ↦ absurd (cc (rw (there, access, h) at e))
  ]
]

module _ {W : Type 0} (T : Tables W) (S : Files W) where
  -- The user in the context may do so to the database that has the id in the path.
  abbrev pub MayChange : {B : Type 0} → (User → Database → Bool) → Request B → W → Type 0
  MayChange may r w =
      (user : User) × (id : ℕ) × (d : Database) × (r.user ≡ some user)
      × (parse_uint_32 (value_of r.params "id") ≡ some id)
      × (Service.find_by_id T S id w ≡ (ok d, w))
      × (may user d ≡ true)

  -- The user in the context may access the databases of the group.
  abbrev pub MayAdd : {B : Type 0} → Request B → String → Type 0
  MayAdd r group_name =
      (user : User) × (d : Database) × (r.user ≡ some user)
      × (d.group_name ≡ group_name)
      × (can_access user d ≡ true)

  pub find_by_id-keeps : (id : ℕ) (w : W) → (Service.find_by_id T S id w).1 ≡ w
  unfolding Service.find_by_id Repository.find_by_id
  find_by_id-keeps id w = refl

  pub find_by_identifier-keeps :
      (identifier : String) (w : W) → (Service.find_by_identifier T S identifier w).1 ≡ w
  unfolding Service.find_by_identifier Service.find_by_id Service.find_by_slug Repository.find_by_id
      Repository.find_by_slug
  find_by_identifier-keeps identifier w = by_number (parse_uint identifier)
    where
      chosen : Option ℕ → Action W Database
      chosen o = elim o [
        | none ↦ Service.find_by_slug T S identifier
        | some id ↦
            if ltb id (2 ^ 32)
            then Service.find_by_id T S id
            else Service.find_by_slug T S identifier
      ]

      by_number : (o : Option ℕ) → (chosen o w).1 ≡ w
      by_number none = refl
      by_number (some id) = elim (Bool-cases (ltb id (2 ^ 32))) [
        | inl h ↦ rw h refl
        | inr h ↦ rw h refl
      ]
