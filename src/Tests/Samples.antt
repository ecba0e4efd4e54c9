-- ===== src/Tests/Samples.antt =====
-- The stacks that cmd/serve/main.go registers, and a deployment of three of them.
use im_manager.Base.{ℕ, String, false, true, none, some, List, [], ◌∷◌}
use im_manager.Model.{
  Group, User, Database, Deployment, DeploymentInstance, DeploymentInstanceParameter,
  DeploymentInstanceParameters,
}
use im_manager.Stack.{Stack, Stacks}
use im_manager.Stack.Definitions.Database.{dhis2_db, minio}
use im_manager.Stack.Definitions.Core.{dhis2_core}
use im_manager.Stack.Definitions.Dhis2.{dhis2}
use im_manager.Stack.Definitions.Tools.{pg_admin, whoami_go, im_job_runner}
use im_manager.Stack.Definitions.Chap.{chap_db, chap_valkey, chap_worker, chap_core}

-- newStackService
abbrev pub all_stacks : List Stack
all_stacks =
    dhis2_db ∷ minio ∷ dhis2_core ∷ dhis2 ∷ pg_admin ∷ whoami_go ∷ im_job_runner ∷ chap_db
    ∷ chap_valkey ∷ chap_worker ∷ chap_core ∷ []

abbrev pub some_stacks : Stacks
some_stacks =
    ("dhis2-db", dhis2_db)
    ∷ ("minio", minio)
    ∷ ("dhis2-core", dhis2_core)
    ∷ ("pgadmin", pg_admin)
    ∷ []

abbrev pub whoami : Group
whoami = record {
  id = 7;
  name = "whoami";
  namespace = "whoami";
  description = "";
  hostname = "whoami.example.org";
  deployable = true;
  cluster_id = none;
}

abbrev pub supplied : String → String → DeploymentInstanceParameter
supplied name value = record {
  deployment_instance_id = 0;
  parameter_name = name;
  stack_name = "";
  value = value;
}

abbrev pub instance_of : ℕ → String → DeploymentInstanceParameters → DeploymentInstance
instance_of id stack parameters = record {
  id = id;
  name = "play";
  group = some whoami;
  group_name = "whoami";
  stack_name = stack;
  deployment_id = 3;
  parameters = parameters;
  public = false;
  deploy_log = "";
}

abbrev pub core : DeploymentInstance
core = instance_of 11 "dhis2-core" (
    ("STORAGE_TYPE", supplied "STORAGE_TYPE" "minio")
    ∷ ("IMAGE_TAG", supplied "IMAGE_TAG" "2.41.0")
    ∷ [])

abbrev pub store : DeploymentInstance
store = instance_of 12 "minio" []

abbrev pub db : DeploymentInstance
db = instance_of 13 "dhis2-db" (("DATABASE_ID", supplied "DATABASE_ID" "42") ∷ [])

abbrev pub play : Deployment
play = record {
  id = 3;
  created_at = 0;
  user_id = 5;
  name = "play";
  description = "";
  group_name = "whoami";
  group = some whoami;
  ttl = 3600;
  instances = core ∷ store ∷ db ∷ [];
}

abbrev pub user_of : ℕ → List Group → List Group → User
user_of id groups admin_groups = record {
  id = id;
  email = "user@dhis2.org";
  email_token = "";
  validated = true;
  password = "";
  password_token = none;
  password_token_ttl = 0;
  groups = groups;
  admin_groups = admin_groups;
}

-- A member of the group, and one who only administers it.
abbrev pub member : User
member = user_of 5 (whoami ∷ []) []

abbrev pub keeper : User
keeper = user_of 6 [] (whoami ∷ [])

abbrev pub dump : Database
dump = record {
  id = 42;
  name = "dump.pgc";
  group_name = "whoami";
  description = "";
  url = "s3://bucket/whoami/dump.pgc";
  lock = none;
  slug = "dump";
  type = "database";
  filestore_id = 0;
  user_id = 5;
  size = 1024;
  created_at = 0;
}
