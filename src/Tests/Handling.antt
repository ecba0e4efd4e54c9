-- ===== src/Tests/Handling.antt =====
-- Requests about a deployment, from a member of its group and from a stranger.
use im_manager.Base.Dict.{get}
use im_manager.Base.Decimal.{parse_uint}
use im_manager.Instance.Handler.Instances.{pause}
use im_manager.Base.{
  ℕ, ◌≡◌, refl, String, true, false, some, List, [], ◌∷◌, ◌++◌, All, string_eq, nat_eq,
}
use im_manager.Errdef.{ok}
use im_manager.Action.{pure}
use im_manager.Model.{Deployment, User}
use im_manager.Authorize.{is_member_of, is_administrator, can_write_deployment, can_read_deployment}
use im_manager.Stack.Service.{find}
use im_manager.Instance.Status.{running}
use im_manager.Instance.Encryption.{is_sensitive}
use im_manager.Instance.Handler.{Services, writable_instance}
use im_manager.Instance.Handler.Stripping.{
  strip_deployment, strip_instances, strip_instance, strip_parameters, strip_parameter,
  strip_groups, strip_deployments,
}
use im_manager.Instance.Handler.Hiding.{Hides, HidesGroup}
use im_manager.Instance.Handler.Permission.{pausing, AreLookups}
use im_manager.Instance.Handler.Changes.{handled, MayMake, handled-keeps}
use im_manager.Instance.Handler.Reading.{find_deployment_by_id, find_deployments}
use im_manager.Instance.Handler.Replies.{find_deployment_by_id-eq-went_on, find_deployments-Hide}
use im_manager.Web.{
  Request, went_on, parse_uint_32, value_of, get_path_parameter, get_user_from_context,
}
use im_manager.Tests.Samples.{some_stacks, whoami, core, supplied, play, member, user_of}

-- A deployment of a database, with its password and without.
abbrev shown : String → Deployment
shown password = record play {
  instances =
      record core {
        stack_name = "dhis2-db";
        parameters = ("DATABASE_PASSWORD", supplied "DATABASE_PASSWORD" password) ∷ [];
      }
      ∷ [];
}

-- Services with one deployment, which log what they change.
abbrev pub services : Services (List String)
services = record {
  find_group = λ name. pure whoami;
  find_deployment_by_id = λ id. pure (shown "secret");
  find_decrypted_deployment_by_id = λ id. pure (shown "secret");
  find_deployment_instance_by_id = λ id. pure core;
  find_decrypted_deployment_instance_by_id = λ id. pure core;
  save_deployment = λ d log. (ok d, log ++ ("saved" ∷ []));
  save_instance = λ i log. (ok i, log ++ ("saved instance" ∷ []));
  pause = λ i log. (ok tt, log ++ ("paused" ∷ []));
  resume = λ i log. (ok tt, log ++ ("resumed" ∷ []));
  restart = λ i selector log. (ok tt, log ++ ("restarted" ∷ []));
  delete_instance = λ d i log. (ok tt, log ++ ("deleted instance" ∷ []));
  delete_deployment = λ d log. (ok tt, log ++ ("deleted" ∷ []));
  logs = λ i group selector. pure "started\nrunning";
  find_deployments = λ user. pure (
      record { name = "whoami"; hostname = "whoami.example.org"; deployments = shown "secret" ∷ [] }
      ∷ []);
  find_public_instances = pure [];
  get_status = λ i. pure running;
  deploy_deployment = λ token d log. (ok d, log ++ ("deployed" ∷ []));
  update_deployment = λ token id ttl description log. (ok play, log ++ ("updated" ∷ []));
  update_instance = λ token d i parameters public log. (ok core, log ++ ("updated" ∷ []));
  reset = λ token i ttl log. (ok tt, log ++ ("reset" ∷ []));
}

abbrev pub request_of : User → String → Request (Unit {0})
request_of user id = record {
  params = ("id", id) ∷ [];
  query = [];
  content_type = "application/json";
  should_bind = ok tt;
  headers = ("Authorization", "Bearer t") ∷ [];
  cookies = [];
  user = some user;
}

abbrev pub stranger : User
stranger = user_of 8 [] []

services-AreLookups : AreLookups services
services-AreLookups = record {
  group_kept = λ name w. refl;
  deployment_kept = λ id w. refl;
  decrypted_kept = λ id w. refl;
  instance_kept = λ id w. refl;
  decrypted_instance_kept = λ id w. refl;
}

denied : can_write_deployment stranger (shown "secret") ≡ false
unfolding can_write_deployment is_member_of nat_eq
denied = refl

not_permitted : ¬ MayMake services some_stacks 600 (pausing (request_of stranger "11")) []
unfolding MayMake
not_permitted (user, id, i, d, there, named, first, second, may) = cc (there, second, may, denied)

handled-keeps_example :
    (handled services some_stacks 600 (pausing (request_of stranger "11")) []).1 ≡ []
handled-keeps_example =
    handled-keeps services some_stacks 600 (pausing (request_of stranger "11")) []
      services-AreLookups not_permitted

pauses :
    handled services some_stacks 600 (pausing (request_of member "11")) []
    ≡ (went_on 202, "paused" ∷ [])
unfolding handled pause get_path_parameter parse_uint_32 parse_uint value_of get string_eq
    writable_instance get_user_from_context can_write_deployment is_member_of nat_eq
pauses = refl

find_deployments-Hide_example : All (HidesGroup some_stacks) (
    record { name = "whoami"; hostname = "whoami.example.org"; deployments = shown "***" ∷ [] }
    ∷ [])
unfolding find_deployments get_user_from_context strip_groups strip_deployments strip_deployment
    strip_instances strip_instance find get string_eq strip_parameters strip_parameter is_sensitive
find_deployments-Hide_example =
    find_deployments-Hide services some_stacks (request_of member "3") [] []
      (record {
        status = 200;
        body =
            record {
              name = "whoami";
              hostname = "whoami.example.org";
              deployments = shown "***" ∷ [];
            }
            ∷ [];
      })
      refl

find_deployment_by_id-eq-went_on_example :
    (user : User) × (id : ℕ) × (deployment : Deployment) × (some member ≡ some user)
    × (parse_uint_32 (value_of (request_of member "3").params "id") ≡ some id)
    × (services.find_deployment_by_id id [] ≡ (ok deployment, []))
    × (can_read_deployment user deployment ≡ true)
    × Hides some_stacks (shown "***")
unfolding find_deployment_by_id get_path_parameter parse_uint_32 parse_uint value_of get string_eq
    get_user_from_context can_read_deployment is_member_of strip_deployment strip_instances
    strip_instance find strip_parameters strip_parameter is_sensitive is_administrator
find_deployment_by_id-eq-went_on_example =
    find_deployment_by_id-eq-went_on services some_stacks (request_of member "3") [] []
      (record { status = 200; body = shown "***" }) refl
