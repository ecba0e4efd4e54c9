-- ===== src/Tests/Services.antt =====
-- The deployment service over a log of what was deployed, the inspector and the middleware.
use im_manager.Base.{
  ℕ, ◌+◌, ◌*◌, ◌<◌, String, ◌<>◌, ◌≡◌, refl, ◌↔◌, ◌⊎◌, map, Bool, true, false, ◌&&◌, none, some,
  List, [], ◌∷◌, ◌++◌, arith, ◌==◌, string_eq, nat_eq, if◌then◌else◌,
}
use im_manager.Base.Dict.{Dict, get, put}
use im_manager.Base.Decimal.{parse_uint}
use im_manager.Errdef.{Error, Result, ok, err, errorf, is_not_found}
use im_manager.Action.{pure}
use im_manager.Model.{user_is_administrator, User, Deployment, DeploymentInstance, Database}
use im_manager.Graph.Kahn.{kahn_graphs}
use im_manager.Graph.Kahn.Laws.{kahn_graphs-IsLawful}
use im_manager.Stack.Service.{find}
use im_manager.Stack.Parameter.{storage_companion_provider}
use im_manager.Instance.Links.{
  validate_no_cycles, add_vertices, link_instances, link_companions, companion_of, link_companion,
  add_edge, link_required, deployment_order, find_instance_by_stack_name, ordered_instances,
}
use im_manager.Instance.Order.Sorted.{IsDeployOrder}
use im_manager.Deployment.{
  Services, database_id_of, database_id_from_instances, build_seed, database_seed, filestore_seed,
  seed_link, read, deploy_instance, deploy_next, deploy_each, deploy_deployment,
  find_instance_by_id,
}
use im_manager.Deployment.Order.{Ends, deploy_deployment-Ends}
use im_manager.Deployment.Seed.{build_seed-eq-ok, HasFilestore, url_of}
use im_manager.Inspector.{
  InstanceService, ttl_before_now, ttl_before_now_iff, ttl_before_now-overflow,
}
use mathlib.Core.List.{Memᴰ}
use im_manager.Deployment.Updating.{UpdateParameters, update_instance, update_instance-eq-ok}
use im_manager.Middleware.{is_reached}
use im_manager.Middleware.Authentication.{administrator_route, administrator_route_iff}
use im_manager.Tests.Samples.{some_stacks, db, play, dump, member}

abbrev logged : String → DeploymentInstance → List String → List String
logged token i log = log ++ ((token <> (" " <> i.stack_name)) ∷ [])

-- Each refreshed token is the one before with a mark; the store cannot be deployed if `broken`.
abbrev sample : Bool → Services (List String)
sample broken = record {
  refresh_access_token = λ token. pure (token <> "+");
  find_database = λ id. pure dump;
  create_external_download = λ id ttl. pure "uuid";
  deploy_instance = λ token i ttl env filestore log.
      if broken && i.stack_name == "minio"
      then (err (errorf "exit status 1"), log)
      else (ok tt, logged token i log);
  destroy_instance = λ i. pure tt;
  find_decrypted_deployment = λ id. pure play;
  save_deployment = λ d. pure tt;
}

deploys_in_order :
    deploy_deployment (sample false) "https://im" kahn_graphs some_stacks "t" play []
    ≡ (ok tt, "t+ dhis2-db" ∷ "t++ minio" ∷ "t+++ dhis2-core" ∷ [])
unfolding deploy_deployment ordered_instances validate_no_cycles kahn_graphs string_eq nat_eq
    add_vertices link_instances find get put link_companions companion_of storage_companion_provider
    link_companion add_edge link_required deployment_order find_instance_by_stack_name deploy_each
    deploy_next deploy_instance build_seed database_id_from_instances database_id_of parse_uint
    database_seed filestore_seed seed_link read
deploys_in_order = refl

deploy_deployment-Ends_example :
    (l : List DeploymentInstance) × IsDeployOrder kahn_graphs kahn_graphs-IsLawful some_stacks play
      l
    × Ends
        (sample true)
        "https://im"
        play.ttl
        l
        "t"
        []
        l
        (deploy_deployment (sample true) "https://im" kahn_graphs some_stacks "t" play [])
unfolding validate_no_cycles kahn_graphs string_eq add_vertices link_instances find get
    link_companions companion_of storage_companion_provider link_companion add_edge link_required
deploy_deployment-Ends_example =
    deploy_deployment-Ends (sample true) "https://im" kahn_graphs kahn_graphs-IsLawful some_stacks
      "t" play _ [] refl

abbrev seed_env : Dict String
seed_env = ("DATABASE_DOWNLOAD_URL", "https://im/databases/external/uuid") ∷ []

build_seed-eq-ok_example :
    (found : Database) × (uuid : String) × (w₁ w₂ : List String) × ((sample false).find_database 42
        []
      ≡ (ok found, w₁))
    × ((sample false).create_external_download found.id 1800 w₁ ≡ (ok uuid, w₂))
    × HasFilestore
        (sample false)
        "https://im"
        found
        (url_of (sample false) "https://im" uuid)
        seed_env
        none
        w₂
        []
unfolding build_seed database_id_from_instances database_id_of get put string_eq nat_eq parse_uint
    database_seed filestore_seed seed_link
build_seed-eq-ok_example =
    build_seed-eq-ok (sample false) "https://im" (some db ∷ []) 42 seed_env none [] [] refl refl

abbrev renewed : Deployment
renewed = record play { ttl = 7200; description = "longer" }

ttl_before_now_iff_example :
    (ttl_before_now 4000000000000 5 3600 ≡ true) ↔ (5 + 3600 * 1000000000 < 4000000000000)
ttl_before_now_iff_example = ttl_before_now_iff 4000000000000 5 3600 (omega arith)

ttl_before_now-overflow_example : ttl_before_now 6 5 9999999999 ≡ true
ttl_before_now-overflow_example =
    ttl_before_now-overflow 6 5 9999999999 (omega arith) (omega arith) (omega arith)

abbrev no_service : InstanceService (List String)
no_service = record {
  delete_deployment = λ d log. (ok tt, log ++ (d.name ∷ []));
  find_decrypted_deployment = λ id. pure play;
}

abbrev ok_member : ℕ → Result User
ok_member id = ok member

administrator_route_iff_example :
    (is_reached (administrator_route (ok (some (some member))) ok_member false) ≡ true) ↔ (
      (u : User) × (ok (some (some member)) ≡ ok (some (some u)))
      × (false ≡ false)
      × (((user : User) × (ok_member u.id ≡ ok user) × (user_is_administrator user ≡ true))
          ⊎ ((e : Error) × (ok_member u.id ≡ err e) × (is_not_found e ≡ false))))
administrator_route_iff_example = administrator_route_iff (ok (some (some member))) ok_member false

-- The parameters that are updated are those of the database.
abbrev change : UpdateParameters (List String)
change d i ps public log = (ok db, log ++ ("updated" ∷ []))

updates_instance :
    update_instance (sample false) "https://im" change "t" 3 13 [] none []
    ≡ (ok db, "updated" ∷ "t+ dhis2-db" ∷ [])
unfolding update_instance find_instance_by_id nat_eq deploy_instance build_seed
    database_id_from_instances database_id_of get string_eq parse_uint database_seed seed_link
    filestore_seed read
updates_instance = refl

update_instance-eq-ok_example :
    (deployment : Deployment) × (instance : DeploymentInstance) × (refreshed : String) × (w₁ w₂
      w₃ : List String)
    × (change 3 13 [] none [] ≡ (ok db, w₁))
    × ((sample false).find_decrypted_deployment 3 w₁ ≡ (ok deployment, w₂))
    × Memᴰ instance deployment.instances
    × (instance.id ≡ 13)
    × ((sample false).refresh_access_token "t" w₂ ≡ (ok refreshed, w₃))
    × (deploy_instance
          (sample false)
          "https://im"
          refreshed
          (some instance)
          deployment.ttl
          (map some deployment.instances)
          w₃
        ≡ (ok tt, "updated" ∷ "t+ dhis2-db" ∷ []))
update_instance-eq-ok_example =
    update_instance-eq-ok (sample false) "https://im" change "t" 3 13 [] none db []
      ("updated" ∷ "t+ dhis2-db" ∷ []) updates_instance
