-- ===== src/Database/Locks.antt =====
-- The locks of databases: what `Lock`, `Unlock` and `Delete` do to the table, as steps of an abstract
-- machine, and the lock of a database over any sequence of them.
pub mod Refinement
use im_manager.Base.{
  ℕ, ◌≡◌, ◌≢◌, refl, Bool, Option, none, some, List, [], ◌∷◌, ◌==◌, nat_eq, if◌then◌else◌, All,
  arith,
}
use im_manager.Model.{Lock, Database}
use im_manager.Database.Tables.{Tables, Rows, with_lock, lock_of}
use im_manager.Database.Repository.{lock, unlock, delete}

-- A database is locked if it is not, is unlocked, or is deleted if it is not locked; or nothing
-- happens. The index is the id of the database that is unlocked.
pub data LockStep (s t : Rows) : Option ℕ → Type 0 where
  acquire :
      (l : Lock)
      → lock_of (s l.database_id) ≡ none
      → ((j : ℕ) → t j ≡ (if j == l.database_id then with_lock (some l) (s j) else s j))
      → LockStep s t none
  release :
      (id : ℕ)
      → ((j : ℕ) → t j ≡ (if j == id then with_lock none (s j) else s j))
      → LockStep s t (some id)
  remove :
      (id : ℕ)
      → lock_of (s id) ≡ none
      → ((j : ℕ) → t j ≡ (if j == id then none else s j))
      → LockStep s t none
  stay : {o : Option ℕ} → ((j : ℕ) → t j ≡ s j) → LockStep s t o

-- A lock that is held is kept by every step that does not release it.
pub LockStep-keeps :
    {s t : Rows} {o : Option ℕ} (id : ℕ) (l : Lock)
    → LockStep s t o
    → o ≢ some id
    → lock_of (s id) ≡ some l
    → lock_of (t id) ≡ some l
LockStep-keeps id l (acquire l' free e) other held = ground (arith, e id)
LockStep-keeps id l (release id' e) other held = ground (arith, e id)
LockStep-keeps id l (remove id' free e) other held = ground (arith, e id)
LockStep-keeps id l (stay e) other held = rw (e id) held

-- A request of the repository.
pub data Request : Type 0 where
  lock_request : ℕ → ℕ → ℕ → Request
  unlock_request : ℕ → Request
  delete_request : ℕ → Request

abbrev pub released : Request → Option ℕ
released (lock_request id i u) = none
released (unlock_request id) = some id
released (delete_request id) = none

module _ {W : Type 0} (T : Tables W) where
  -- The world after a request, whatever its result.
  abbrev pub after : Request → W → W
  after (lock_request id i u) w = (lock T id i u w).1
  after (unlock_request id) w = (unlock T id w).1
  after (delete_request id) w = (delete T id w).1

  unfoldable pub after_all : List Request → W → W
  after_all [] w = w
  after_all (r ∷ rs) w = after_all rs (after r w)
