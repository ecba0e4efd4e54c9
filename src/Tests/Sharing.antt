-- ===== src/Tests/Sharing.antt =====
-- Requests about a database and its links.
use im_manager.Database.Repository.{find_by_id, found}
use im_manager.Base.Dict.{get}
use im_manager.Base.Decimal.{parse_uint}
use mathlib.Core.Path.{subst}
use im_manager.Base.{
  ℕ, ◌+◌, ◌^◌, ◌≤◌, ◌<◌, ◌≡◌, refl, String, true, false, none, some, [], ◌∷◌, nat_eq, string_eq,
  arith,
}
use im_manager.Errdef.{ok}
use im_manager.Action.{pure}
use im_manager.Model.{User, Database, ExternalDownload}
use im_manager.Authorize.{can_access, is_member_of, is_administrator, is_group_administrator}
use im_manager.Database.Tables.{Rows}
use im_manager.Database.Repository
use im_manager.Web
use im_manager.Base.Decimal
use im_manager.Base.Dict
use im_manager.Database.Service
use im_manager.Database.Handler.{Others, access}
use im_manager.Database.Handler.Records.{
  CreateExternalDatabaseRequest, create_external_download, external_download,
}
use im_manager.Database.Handler.Permission.{Change, deleting, AreLookups}
use im_manager.Database.Handler.Changes.{handled, MayMake}
use im_manager.Database.Handler.Denial.{handled-unchanged}
use im_manager.Database.Handler.Downloads.{
  create_external_download-eq-went_on, external_download-eq-went_on,
}
use im_manager.Web.{Request, went_on, parse_uint_32, value_of}
use im_manager.Tests.Samples.{some_stacks, whoami, core, play, member}
use im_manager.Tests.Databases.{
  row_at, tables, tables-AreTables, files, link, free_dump, one_row, row_at,
}
use im_manager.Tests.Handling.{request_of, stranger}

abbrev others : Others Rows
others = record {
  find_group = λ name. pure whoami;
  find_decrypted_deployment_instance_by_id = λ id. pure core;
  find_deployment_by_id = λ id. pure play;
  save_as = λ user i stack c name format. pure free_dump;
  save = λ user d i stack c. pure tt;
  parse_uuid = λ s. ok s;
}

others-AreLookups : AreLookups others
others-AreLookups = record {
  group_kept = λ name w. refl;
  instance_kept = λ id w. refl;
  deployment_kept = λ id w. refl;
}

abbrev rows : Rows
rows = one_row free_dump

found_first : Service.find_by_id tables files 1 rows ≡ (ok free_dump, rows)
unfolding Service.find_by_id find_by_id found row_at nat_eq
found_first = refl

denied : can_access stranger free_dump ≡ false
unfolding can_access is_member_of
denied = refl

abbrev delete_request : Change
delete_request = deleting (request_of stranger "1")

named_first : parse_uint_32 (value_of (request_of stranger "1").params "id") ≡ some 1
unfolding parse_uint_32 parse_uint value_of get string_eq
named_first = refl

not_permitted : ¬ MayMake tables files others some_stacks delete_request rows
unfolding MayMake
not_permitted (user, id, d, there, named, found, may) =
    let first : id ≡ 1 = cc (named, named_first) in
    let found' = subst (λ x. Service.find_by_id tables files x rows ≡ (ok d, rows)) first found in
    cc (there, found_first, found', may, denied)

handled-unchanged_example : (handled tables files others some_stacks delete_request rows).1 ≡ rows
handled-unchanged_example =
    handled-unchanged tables files others some_stacks delete_request rows others-AreLookups
      not_permitted

abbrev link_request : Request CreateExternalDatabaseRequest
link_request = record {
  params = ("id", "1") ∷ [];
  query = [];
  content_type = "application/json";
  should_bind = ok (record { expiration = 100 });
  headers = [];
  cookies = [];
  user = some member;
}

created_link :
    create_external_download tables files others link_request rows
    ≡ (went_on (record { status = 201; body = link }), rows)
unfolding create_external_download Web.get_path_parameter parse_uint_32 Decimal.parse_uint value_of
    Dict.get string_eq Web.data_binder Service.find_by_id Repository.find_by_id Repository.found
    row_at nat_eq access Web.get_user_from_context can_access is_member_of is_administrator
    is_group_administrator Repository.create_external_download Repository.executed
    Repository.plainly Repository.purge_external_download Repository.store_download
    Service.create_external_download
created_link = refl

in_time : (v : Rows) → tables.now v < 2 ^ 63
in_time v = ground arith

create_external_download-eq-went_on_example :
    (user : User) × (id : ℕ) × (d : Database) × (request : CreateExternalDatabaseRequest)
    × (v : Rows) × (some member ≡ some user)
    × (link_request.should_bind ≡ ok request)
    × (can_access user d ≡ true)
    × (parse_uint_32 (value_of link_request.params "id") ≡ some id)
    × (Service.find_by_id tables files id rows ≡ (ok d, rows))
    × (1 ≡ d.id)
    × (200 ≡ tables.now v + request.expiration)
    × (request.expiration ≤ 2592000)
create_external_download-eq-went_on_example =
    create_external_download-eq-went_on tables files others link_request rows rows
      (record { status = 201; body = link }) in_time created_link

abbrev anybody : Request (Unit {0})
anybody = record (request_of stranger "1") { params = ("uuid", "u") ∷ []; user = none }

sent_link :
    external_download tables files others anybody rows
    ≡ (went_on (record { status = 200; body = free_dump }), rows)
unfolding external_download string_eq value_of Dict.get Service.find_external_download
    Repository.purge_external_download Repository.executed Repository.plainly Repository.found
    Repository.find_external_download Service.find_by_id Repository.find_by_id row_at nat_eq
    Service.download Service.download_key Service.key_of Service.trim_slash
sent_link = refl

external_download-eq-went_on_example :
    (uuid : String) × (found : ExternalDownload) × (v : Rows) × (others.parse_uuid
        (value_of anybody.params "uuid")
      ≡ ok uuid)
    × (Service.find_external_download tables files uuid rows ≡ (ok found, v))
    × (found.uuid ≡ uuid)
    × (tables.now v < found.expiration)
    × (Service.find_by_id tables files found.database_id v ≡ (ok free_dump, v))
    × (Service.download tables files 1 v ≡ (ok tt, rows))
external_download-eq-went_on_example =
    external_download-eq-went_on tables files (λ w. w) others anybody rows rows
      (record { status = 200; body = free_dump }) tables-AreTables sent_link
