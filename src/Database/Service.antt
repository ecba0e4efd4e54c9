-- ===== src/Database/Service.antt =====
-- pkg/database/service.go, over the repository and the calls that it makes of the object store.
pub mod Laws
use Prim.Native.Char.{Char, code}
use im_manager.Base.{
  ℕ, zero, suc, String, ◌<>◌, Bool, true, false, not, ◌&&◌, ◌||◌, Option, none, some, List, [], ◌∷◌,
  ◌==◌, string_eq, nat_eq, ltb, ◌^◌, if◌then◌else◌,
}
use im_manager.Base.Decimal.{parse_uint}
use im_manager.Base.Text.{has_suffix, has_prefix, trim_suffix}
use im_manager.Errdef.{
  Error, Result, ok, err, errorf, new_not_found, new_bad_request, new_unauthorized, is_not_found,
  wrap,
}
use im_manager.Action
use im_manager.Action.{Action, pure, lift, ◌>>=◌, on_failure}
use im_manager.Model.{Group, User, Lock, Database, ExternalDownload}
use im_manager.Database.Tables.{Tables}
use im_manager.Database.Repository

-- `S3Client`, the bucket, and the path of a URL that `url.Parse` reads.
pub record Files (W : Type 0) : Type 0 where
  pub bucket : String
  pub parse_path : String → Result String
  pub copy : String → String → Action W (Unit {0})
  pub move : String → String → Action W (Unit {0})
  pub upload : String → ℕ → Action W (Unit {0})
  pub remove : String → Action W (Unit {0})
  pub download : String → Action W (Unit {0})
  pub stream_upload : String → Action W ℕ

-- strings.TrimPrefix(path, "/")
unfoldable pub trim_slash : String → String
trim_slash String.[] = String.[]
trim_slash (String.◌∷◌ c s) = if code c == 47 then s else String.◌∷◌ c s

-- `d.Name += suffix` if the source's name has the suffix and the new name has not.
unfoldable pub keep_suffix : String → String → String → String
keep_suffix suffix source name =
    if has_suffix source suffix && not (has_suffix name suffix) then name <> suffix else name

unfoldable pub copy_name : String → String → String
unfolding keep_suffix
copy_name source name = keep_suffix ".sql.gz" source (keep_suffix ".pgc" source name)

unfoldable pub base_name : String → String
base_name name = trim_suffix (trim_suffix name ".pgc") ".sql.gz"

unfoldable pub get_format : Database → String
get_format d = if has_suffix d.url ".pgc" then "custom" else "plain"

-- A new record, of which the code sets some fields.
abbrev pub blank : Database
blank = record {
  id = 0;
  name = "";
  group_name = "";
  description = "";
  url = "";
  lock = none;
  slug = "";
  type = "";
  filestore_id = 0;
  user_id = 0;
  size = 0;
  created_at = 0;
}

-- if errdef.IsNotFound(err) { return nil }
unfoldable pub unless_missing :
    {W A : Type 0} → Result A → (A → Action W (Unit {0})) → Action W (Unit {0})
unless_missing (ok a) f = f a
unless_missing (err e) f = if is_not_found e then pure tt else lift (err e)

unfoldable pub redact_argument : String → String
redact_argument a = if has_prefix a "PGPASSWORD=" then "PGPASSWORD=*****" else a

unfoldable pub redact_pg_password : List String → List String
redact_pg_password [] = []
redact_pg_password (a ∷ command) = redact_argument a ∷ redact_pg_password command

-- The lock is of another instance or user.
unfoldable pub is_foreign : Lock → ℕ → ℕ → Bool
is_foreign l instance_id user_id = not (l.instance_id == instance_id) || not (l.user_id == user_id)

module _ {W : Type 0} (T : Tables W) (S : Files W) where
  unfoldable pub object_url : String → String
  object_url key = "s3://" <> (S.bucket <> ("/" <> key))

  unfoldable pub key_of : String → Result String
  key_of url = elim (S.parse_path url) [ err e ↦ err e | ok path ↦ ok (trim_slash path) ]

  unfoldable pub find_by_id : ℕ → Action W Database
  find_by_id id = Repository.find_by_id T id

  unfoldable pub find_by_slug : String → Action W Database
  find_by_slug slug = Repository.find_by_slug T slug

  -- strconv.ParseUint(identifier, 10, 32)
  unfoldable pub find_by_identifier : String → Action W Database
  find_by_identifier identifier = elim (parse_uint identifier) [
    | none ↦ find_by_slug identifier
    | some id ↦ if ltb id (2 ^ 32) then find_by_id id else find_by_slug identifier
  ]

  unfoldable pub copy_fs_found : Database → Group → Database → Action W (Unit {0})
  copy_fs_found d group fs = do
    source_key ← lift (key_of fs.url)
    let new_name = base_name d.name <> ".fs.tar.gz"
    let destination_key = group.name <> ("/" <> new_name)
    _ ← S.copy source_key destination_key
    fs_new ← Repository.create T (
        Repository.update_slug T (record blank {
          name = new_name;
          group_name = group.name;
          url = object_url destination_key;
          type = "fs";
        }))
    _ ← Repository.save T (record d { filestore_id = fs_new.id })
    pure tt

  unfoldable pub copy_fs : Database → Group → ℕ → Action W (Unit {0})
  copy_fs d group filestore_id w =
      let (fs, w') = Repository.find_by_id T filestore_id w in
      unless_missing fs (copy_fs_found d group) w'

  unfoldable pub copy : ℕ → Database → Group → Action W (Unit {0})
  copy id d group = do
    source ← find_by_id id
    let name = copy_name source.name d.name
    source_key ← lift (key_of source.url)
    let destination_key = group.name <> ("/" <> name)
    _ ← S.copy source_key destination_key
    created ←
        Repository.create T
          (Repository.update_slug T (record d { name = name; url = object_url destination_key }))
    copy_fs created group source.filestore_id

  unfoldable pub lock : ℕ → ℕ → ℕ → Action W Lock
  lock id instance_id user_id = Repository.lock T id instance_id user_id

  unfoldable pub unlock : ℕ → Action W (Unit {0})
  unlock id = Repository.unlock T id

  unfoldable pub upload : Database → Group → ℕ → Action W Database
  upload d group size = do
    let key = group.name <> ("/" <> d.name)
    _ ← S.upload key size
    Repository.save T (record d { url = object_url key; size = size })

  unfoldable pub download_key : Database → Result String
  download_key d =
      if d.url == ""
      then err (new_bad_request "database with id %d doesn't reference any url")
      else key_of d.url

  unfoldable pub download : ℕ → Action W (Unit {0})
  download id = do d ← Repository.find_by_id T id; key ← lift (download_key d); S.download key

  -- if key != "" { … }
  unfoldable pub remove_file : String → Action W (Unit {0})
  remove_file key = if key == "" then pure tt else S.remove key

  unfoldable pub delete_fs_found : Database → Action W (Unit {0})
  delete_fs_found fs = do key ← lift (key_of fs.url); _ ← remove_file key; Repository.delete T fs.id

  unfoldable pub delete_fs : Database → Action W (Unit {0})
  delete_fs d w =
      let (fs, w') = Repository.find_by_id T d.filestore_id w in
      unless_missing fs delete_fs_found w'

  unfoldable pub reject_locked : Database → Result (Unit {0})
  reject_locked d = elim d.lock [
    | none ↦ ok tt
    | some l ↦ err (new_bad_request "database is locked")
  ]

  unfoldable pub delete : ℕ → Action W (Unit {0})
  delete id = do
    d ← Repository.find_by_id T id
    _ ← lift (reject_locked d)
    key ← lift (key_of d.url)
    _ ← remove_file key
    _ ← Repository.delete T id
    delete_fs d

  unfoldable pub update_fs_found : Database → Database → Action W (Unit {0})
  update_fs_found d fs = do
    let name = base_name d.name <> "-fs.tar.gz"
    source_key ← lift (key_of fs.url)
    let destination = fs.group_name <> ("/" <> name)
    _ ← S.move source_key destination
    _ ← Repository.update T (record fs { name = name; url = object_url destination })
    pure tt

  unfoldable pub update_fs : Database → Action W (Unit {0})
  update_fs d w =
      let (fs, w') = Repository.find_by_id T d.filestore_id w in
      unless_missing fs (update_fs_found d) w'

  unfoldable pub update : Database → Action W (Unit {0})
  update d = do
    source_key ← lift (key_of d.url)
    let destination = d.group_name <> ("/" <> d.name)
    _ ← S.move source_key destination
    updated ←
        Repository.update T (Repository.update_slug T (record d { url = object_url destination }))
    (if updated.filestore_id == 0 then pure tt else update_fs updated)

  unfoldable pub create_external_download : ℕ → ℕ → Action W ExternalDownload
  create_external_download database_id expiration = do
    _ ← Repository.purge_external_download T
    Repository.create_external_download T database_id expiration

  unfoldable pub find_external_download : String → Action W ExternalDownload
  find_external_download uuid = do
    _ ← Repository.purge_external_download T
    Repository.find_external_download T uuid

  unfoldable pub ensure_lock : ℕ → ℕ → Database → Option Lock → Action W (Database × Bool)
  ensure_lock instance_id user_id d (some l) =
      if is_foreign l instance_id user_id
      then lift (err (new_unauthorized "database is locked"))
      else pure (d, true)
  ensure_lock instance_id user_id d none = do
    _ ← lock d.id instance_id user_id
    reloaded ← find_by_id d.id
    pure (reloaded, false)

  unfoldable pub ensure_locked : Database → ℕ → ℕ → Action W (Database × Bool)
  ensure_locked d instance_id user_id = ensure_lock instance_id user_id d d.lock

  unfoldable pub create_database : ℕ → String → String → Action W Database
  create_database user_id group_name name =
      Repository.save T (record blank {
        name = name;
        group_name = group_name;
        type = "database";
        user_id = user_id;
      })

  -- An error that is only logged.
  unfoldable pub logged : Action W (Unit {0}) → Action W (Unit {0})
  logged m w = (ok tt, (m w).1)

  unfoldable pub relock : Database → Option Lock → Action W (Unit {0})
  relock d none = pure tt
  relock d (some l) = do _ ← Repository.lock T d.id l.instance_id l.user_id; pure tt

  unfoldable pub finalize_save : Database → Database → Action W Database
  finalize_save d saved = do
    source_key ← lift (key_of saved.url)
    _ ←
        on_failure (S.move source_key (d.group_name <> ("/" <> d.name)))
          (λ _. errorf "moving database failed: %v")
    _ ← logged (Repository.unlock T d.id)
    _ ← Repository.delete T d.id
    updated ← Repository.update T (record saved {
      name = d.name;
      group_name = d.group_name;
      url = d.url;
      slug = d.slug;
      created_at = d.created_at;
    })
    _ ← Repository.update_id T updated.id d.id
    _ ← relock d d.lock
    pure (record updated { id = d.id })

  -- `defer`: the database is unlocked again, whatever the result, if it was not locked before.
  unfoldable pub unlock_after : Bool → ℕ → Result Database × W → Result Database × W
  unlock_after true id (r, w) = (r, w)
  unlock_after false id (r, w) = (r, (Repository.unlock T id w).1)

  -- `dump` is `Dump`, which streams the dump of the instance into the given record, in a format.
  unfoldable pub save_locked :
      (Database → String → Action W Database) → Database → String → Bool → Action W Database
  save_locked dump d group_name was_locked w = unlock_after was_locked d.id (saving w)
    where
      saving : Action W Database
      saving w =
          let (tmp_name, w') = T.new_uuid w in
          (do
            created ← create_database d.user_id group_name tmp_name
            saved ← dump created (get_format d)
            finalize_save d saved)
            w'

  unfoldable pub stream_upload : Database → Group → Action W Database
  stream_upload d group = do
    let key = group.name <> ("/" <> d.name)
    size ← S.stream_upload key
    on_failure (Repository.save T (record d { url = object_url key; size = size }))
        (wrap "failed to save database record: ")
