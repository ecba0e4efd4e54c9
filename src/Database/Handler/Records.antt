-- ===== src/Database/Handler/Records.antt =====
-- pkg/database/handler.go: the handlers of databases and of their downloads.
use im_manager.Base.{ℕ, String, not, Option, none, some, List, ◌==◌, string_eq, leb}
use im_manager.Base.Text.{trim, is_space}
use im_manager.Errdef.{new_bad_request, new_forbidden}
use im_manager.Model.{User, Lock, Database, ExternalDownload}
use im_manager.Authorize.{can_unlock}
use im_manager.Database.Tables.{Tables}
use im_manager.Database.Service
use im_manager.Database.Service.{Files, blank}
use im_manager.Database.Handler.{Others, GroupsWithDatabases, access, list}
use Prim.Native.Char.{code}
use im_manager.Base.{nat_eq}
use im_manager.Web.{
  Request, Handling, serve, check, require, reply, Reply, get_path_parameter, get_user_from_context,
  data_binder, value_of, ◌>>=◌, ◌>>◌,
}

pub record CopyDatabaseRequest : Type 0 where
  pub name : String
  pub group : String

pub record LockDatabaseRequest : Type 0 where
  pub instance_id : ℕ

pub record UpdateDatabaseRequest : Type 0 where
  pub name : String
  pub description : String

pub record CreateExternalDatabaseRequest : Type 0 where
  pub expiration : ℕ

abbrev pub max_external_download_expiration_seconds : ℕ
max_external_download_expiration_seconds = 2592000

-- strings.TrimSpace of a header.
unfoldable pub header_of : {B : Type 0} → Request B → String → String
header_of r name = trim is_space (value_of r.headers name)

module _ {W : Type 0} (T : Tables W) (S : Files W) (O : Others W) where
  unfoldable pub upload : {B : Type 0} → Request B → Handling W (Reply Database)
  upload r = do
    let group_name = header_of r "X-Upload-Group"
    require (not (group_name == "")) (new_bad_request "X-Upload-Group header is required")
    let name = header_of r "X-Upload-Name"
    require (not (name == "")) (new_bad_request "X-Upload-Name header is required")
    user ← check (get_user_from_context r)
    let d = record blank {
      name = trim (λ c. code c == 47) name;
      description = header_of r "X-Upload-Description";
      group_name = group_name;
      type = "database";
      user_id = user.id;
    }
    check (access r d)
    group ← serve (O.find_group d.group_name)
    saved ← serve (Service.stream_upload T S d group)
    reply (record { status = 201; body = saved })

  -- Of the reply, the record that the service changes by its pointer is left out here and in `update`.
  unfoldable pub copy : Request CopyDatabaseRequest → Handling W (Reply (Unit {0}))
  copy r = do
    id ← get_path_parameter r "id"
    request ← check (data_binder r)
    user ← check (get_user_from_context r)
    let d = record blank {
      name = request.name;
      group_name = request.group;
      type = "database";
      user_id = user.id;
    }
    check (access r d)
    group ← serve (O.find_group d.group_name)
    serve (Service.copy T S id d group)
    reply (record { status = 201; body = tt })

  unfoldable pub find_by_identifier : {B : Type 0} → Request B → Handling W (Reply Database)
  find_by_identifier r = do
    d ← serve (Service.find_by_identifier T S (value_of r.params "id"))
    check (access r d)
    reply (record { status = 200; body = d })

  unfoldable pub lock : Request LockDatabaseRequest → Handling W (Reply Lock)
  lock r = do
    id ← get_path_parameter r "id"
    request ← check (data_binder r)
    d ← serve (Service.find_by_id T S id)
    user ← check (get_user_from_context r)
    check (access r d)
    locked ← serve (Service.lock T S id request.instance_id user.id)
    reply (record { status = 201; body = locked })

  -- What follows `d.Lock == nil`.
  unfoldable pub unlock_held : User → ℕ → Database → Option Lock → Handling W (Reply (Unit {0}))
  unlock_held user id d none = reply (record { status = 204; body = tt })
  unlock_held user id d (some l) = do
    require (can_unlock user d) (new_forbidden "access denied")
    serve (Service.unlock T S id)
    reply (record { status = 202; body = tt })

  unfoldable pub unlock : {B : Type 0} → Request B → Handling W (Reply (Unit {0}))
  unlock r = do
    id ← get_path_parameter r "id"
    d ← serve (Service.find_by_id T S id)
    user ← check (get_user_from_context r)
    unlock_held user id d d.lock

  -- The headers of the reply and the file itself are left to the framework and the object store: the
  -- reply has the database whose file is sent.
  unfoldable pub download : {B : Type 0} → Request B → Handling W (Reply Database)
  download r = do
    d ← serve (Service.find_by_identifier T S (value_of r.params "id"))
    check (access r d)
    serve (Service.download T S d.id)
    reply (record { status = 200; body = d })

  unfoldable pub delete : {B : Type 0} → Request B → Handling W (Reply (Unit {0}))
  delete r = do
    id ← get_path_parameter r "id"
    d ← serve (Service.find_by_id T S id)
    check (access r d)
    serve (Service.delete T S id)
    reply (record { status = 202; body = tt })

  unfoldable pub list_all : {B : Type 0} → Request B → Handling W (Reply (List GroupsWithDatabases))
  list_all r = do
    user ← check (get_user_from_context r)
    databases ← serve (list T user)
    reply (record { status = 200; body = databases })

  unfoldable pub update : Request UpdateDatabaseRequest → Handling W (Reply (Unit {0}))
  update r = do
    id ← get_path_parameter r "id"
    request ← check (data_binder r)
    d ← serve (Service.find_by_id T S id)
    check (access r d)
    serve (Service.update T S (record d { name = request.name; description = request.description }))
    reply (record { status = 200; body = tt })

  unfoldable pub create_external_download :
      Request CreateExternalDatabaseRequest → Handling W (Reply ExternalDownload)
  create_external_download r = do
    id ← get_path_parameter r "id"
    request ← check (data_binder r)
    require (leb request.expiration max_external_download_expiration_seconds)
        (new_bad_request "expiration must not exceed 30 days (%d seconds)")
    d ← serve (Service.find_by_id T S id)
    check (access r d)
    download ← serve (Service.create_external_download T S d.id request.expiration)
    reply (record { status = 201; body = download })

  unfoldable pub external_download : {B : Type 0} → Request B → Handling W (Reply Database)
  external_download r = do
    require (not (value_of r.params "uuid" == "")) (new_bad_request "error missing uuid")
    id ← check (O.parse_uuid (value_of r.params "uuid"))
    download ← serve (Service.find_external_download T S id)
    d ← serve (Service.find_by_id T S download.database_id)
    serve (Service.download T S d.id)
    reply (record { status = 200; body = d })
