-- ===== src/Database/Tables.antt =====
-- The calls that pkg/database/repository.go makes of gorm, of the slug library and of the clock, and
-- what they do to the table of databases and of locks.
use im_manager.Base.{
  ℕ, String, ◌≡◌, ◌==◌, nat_eq, Bool, true, Option, none, some, List, if◌then◌else◌,
}
use im_manager.Errdef.{ok, err}
use im_manager.Action.{Action}
use im_manager.Model.{Lock, Database, ExternalDownload}

-- gorm.ErrRecordNotFound, gorm.ErrDuplicatedKey, and any other error.
pub data Answer (A : Type 0) : Type 0 where
  done : A → Answer A
  record_not_found : Answer A
  duplicated_key : Answer A
  failed : String → Answer A

-- A statement returns its answer and the world after it; a query leaves the world as it is.
pub record Tables (W : Type 0) : Type 1 where
  pub first_database : ℕ → W → Answer Database
  pub first_database_by_slug : String → W → Answer Database
  pub databases_of_groups : Option (List String) → W → Answer (List Database)
  pub create_database : Database → W → Answer Database × W
  pub save_database : Database → W → Answer Database × W
  pub update_database_id : ℕ → ℕ → W → Answer (Unit {0}) × W
  pub delete_database : ℕ → W → Answer (Unit {0}) × W
  pub create_lock : Lock → W → Answer Lock × W
  pub delete_locks : ℕ → W → Answer ℕ × W
  pub downloads_of : ℕ → W → Answer (List ExternalDownload)
  pub first_download : (ExternalDownload → Bool) → String → W → Answer ExternalDownload
  pub save_download : ExternalDownload → W → Answer (Unit {0}) × W
  pub delete_download : String → W → Answer (Unit {0}) × W
  pub delete_downloads_where : (ExternalDownload → Bool) → W → Answer (Unit {0}) × W
  pub transaction : {A : Type 0} → Action W A → Action W A
  pub now : W → ℕ
  pub new_uuid : W → String × W
  pub make_slug : String → String

-- What the table of databases holds, each with its lock.
abbrev pub Rows : Type 0
Rows = ℕ → Option Database

abbrev pub with_lock : Option Lock → Option Database → Option Database
with_lock l none = none
with_lock l (some d) = some (record d { lock = l })

abbrev pub lock_of : Option Database → Option Lock
lock_of none = none
lock_of (some d) = d.lock

-- The documented behaviour that the code relies on: a query returns what is stored, and `First` after
-- `Where` a row with that key that meets the condition; a statement that
-- fails changes nothing; the lock's primary key is the database's id; a transaction that fails is
-- rolled back.
pub record AreTables {W : Type 0} (T : Tables W) (rows : W → Rows) : Type 1 where
  pub first_done :
      (id : ℕ) (w : W) (d : Database) → T.first_database id w ≡ done d → rows w id ≡ some d
  pub lock_done :
      (l l' : Lock) (w w' : W)
      → T.create_lock l w ≡ (done l', w')
      → (l' ≡ l)
        × (lock_of (rows w l.database_id) ≡ none)
        × ((j : ℕ)
            → rows w' j ≡ (if j == l.database_id then with_lock (some l) (rows w j) else rows w j))
  pub unlock_done :
      (id n : ℕ) (w w' : W)
      → T.delete_locks id w ≡ (done n, w')
      → (j : ℕ) → rows w' j ≡ (if j == id then with_lock none (rows w j) else rows w j)
  pub unlock_failed :
      (id : ℕ) (w w' : W) (a : Answer ℕ)
      → T.delete_locks id w ≡ (a, w')
      → ((n : ℕ) → ¬ (a ≡ done n))
      → w' ≡ w
  pub delete_done :
      (id : ℕ) (w w' : W)
      → T.delete_database id w ≡ (done tt, w')
      → (j : ℕ) → rows w' j ≡ (if j == id then none else rows w j)
  pub download_done :
      (uuid : String) (w w' : W)
      → T.delete_download uuid w ≡ (done tt, w')
      → (j : ℕ) → rows w' j ≡ rows w j
  pub first_download_done :
      (condition : ExternalDownload → Bool) (uuid : String) (w : W) (d : ExternalDownload)
      → T.first_download condition uuid w ≡ done d
      → (d.uuid ≡ uuid) × (condition d ≡ true)
  pub committed :
      {A : Type 0} (m : Action W A) (w w' : W) (a : A)
      → T.transaction m w ≡ (ok a, w')
      → m w ≡ (ok a, w')
  pub rolled_back :
      {A : Type 0} (m : Action W A) (w w' : W) (e : _) → T.transaction m w ≡ (err e, w') → w' ≡ w
