-- ===== src/Database/Repository.antt =====
-- pkg/database/repository.go
use im_manager.Base.{
  ℕ, zero, suc, ◌+◌, ◌%◌, ◌^◌, String, ◌<>◌, Bool, false, Option, none, some, List, [], ◌∷◌, ◌==◌,
  string_eq, nat_eq, ltb, not, if◌then◌else◌,
}
use im_manager.Base.Lists.{contains}
use im_manager.Errdef.{
  Error, Result, ok, err, errorf, new_not_found, new_bad_request, new_duplicated,
}
use im_manager.Action.{Action, pure, lift, ◌>>=◌, ◌>>◌}
use im_manager.Model.{Lock, Database, ExternalDownload, administrator_group_name}
use im_manager.Database.Tables.{Answer, done, record_not_found, duplicated_key, failed, Tables}

-- The error of an answer, of which `missing` stands for gorm.ErrRecordNotFound.
unfoldable pub found : {A : Type 0} → Error → Answer A → Result A
found missing (done a) = ok a
found missing record_not_found = err missing
found missing duplicated_key = err (errorf "duplicated key not allowed")
found missing (failed m) = err (errorf m)

-- The error of an answer, of which `taken` stands for gorm.ErrDuplicatedKey.
unfoldable pub stored : {A : Type 0} → Error → Answer A → Result A
stored taken (done a) = ok a
stored taken record_not_found = err (errorf "record not found")
stored taken duplicated_key = err taken
stored taken (failed m) = err (errorf m)

-- `.Error`, passed on.
unfoldable pub plainly : {A : Type 0} → Answer A → Result A
plainly a = found (errorf "record not found") a

-- A statement whose error is passed on.
unfoldable pub executed : {W A : Type 0} → Answer A × W → Result A × W
executed (a, w) = (plainly a, w)

-- d.Lock != nil && d.Lock.InstanceID != 0
unfoldable pub is_held : Option Lock → Bool
is_held none = false
is_held (some l) = not (l.instance_id == 0)

unfoldable pub rows_affected : ℕ → Result (Unit {0})
rows_affected zero = err (new_not_found "lock not found by database id: %d")
rows_affected (suc n) = ok tt

module _ {W : Type 0} (T : Tables W) where
  unfoldable pub update_slug : Database → Database
  update_slug d = record d { slug = T.make_slug (d.group_name <> ("/" <> d.name)) }

  unfoldable pub create : Database → Action W Database
  create d w = executed (T.create_database (update_slug d) w)

  unfoldable pub save : Database → Action W Database
  save d w =
      let (a, w') = T.save_database (update_slug d) w in
      (stored (new_duplicated "database named %q already exists") a, w')

  unfoldable pub find_by_id : ℕ → Action W Database
  find_by_id id w =
      (found (new_not_found "database not found by id: %d") (T.first_database id w), w)

  unfoldable pub update_id : ℕ → ℕ → Action W (Unit {0})
  update_id old_id new_id w = executed (T.update_database_id old_id new_id w)

  unfoldable pub find_by_slug : String → Action W Database
  find_by_slug slug w =
      (found (new_not_found "database not found by slug: %q") (T.first_database_by_slug slug w), w)

  -- The body of the transaction of `Lock`.
  unfoldable pub lock_free : Lock → Database → Action W Lock
  lock_free l d =
      if is_held d.lock
      then lift (err (new_bad_request "database already locked by user %d and instance %d"))
      else λ w. executed (T.create_lock l w)

  unfoldable pub lock : ℕ → ℕ → ℕ → Action W Lock
  lock database_id instance_id user_id = T.transaction (do
    d ← find_by_id database_id
    lock_free (record { database_id = database_id; instance_id = instance_id; user_id = user_id })
        d)

  unfoldable pub unlock : ℕ → Action W (Unit {0})
  unlock database_id = do n ← λ w. executed (T.delete_locks database_id w); lift (rows_affected n)

  unfoldable pub delete_downloads : List ExternalDownload → Action W (Unit {0})
  delete_downloads [] = pure tt
  delete_downloads (d ∷ downloads) = do
    λ w. executed (T.delete_download d.uuid w)
    delete_downloads downloads

  unfoldable pub delete_rows : ℕ → Action W (Unit {0})
  delete_rows id = do
    downloads ← λ w. (plainly (T.downloads_of id w), w)
    delete_downloads downloads
    λ w. executed (T.delete_database id w)

  unfoldable pub delete_unlocked : ℕ → Option Lock → Action W (Unit {0})
  delete_unlocked id (some l) = lift (err (new_bad_request "database is locked"))
  delete_unlocked id none = T.transaction (delete_rows id)

  unfoldable pub delete : ℕ → Action W (Unit {0})
  delete id = do database ← find_by_id id; delete_unlocked id database.lock

  unfoldable pub find_by_group_names : List String → Action W (List Database)
  find_by_group_names group_names w =
      let groups =
        if contains group_names administrator_group_name then none else some group_names in
      (plainly (T.databases_of_groups groups w), w)

  unfoldable pub update : Database → Action W Database
  update d w = executed (T.save_database (update_slug d) w)

  unfoldable pub store_download : ExternalDownload → Action W ExternalDownload
  store_download d w = let (a, w') = T.save_download d w in continue' (plainly a) w'
    where
      continue' : Result (Unit {0}) → Action W ExternalDownload
      continue' (ok _) = pure d
      continue' (err e) = lift (err e)

  -- `uint(time.Now().Unix()) + expirationInSeconds` wraps around.
  unfoldable pub create_external_download : ℕ → ℕ → Action W ExternalDownload
  create_external_download database_id expiration w =
      let (uuid, w') = T.new_uuid w in
      store_download
        (record {
          uuid = uuid;
          expiration = (T.now w' + expiration) % 2 ^ 64;
          database_id = database_id;
        })
        w'

  -- `Where("expiration > ?", time.Now().Unix())`
  unfoldable pub find_external_download : String → Action W ExternalDownload
  find_external_download uuid w = (
    found (new_not_found "external download not found by id: %q")
        (T.first_download (λ d. ltb (T.now w) d.expiration) uuid w),
    w,
  )

  -- `Where("expiration < ?", time.Now().Unix())`
  unfoldable pub purge_external_download : Action W (Unit {0})
  purge_external_download w =
      executed (T.delete_downloads_where (λ d. ltb d.expiration (T.now w)) w)
