-- ===== src/Stack/Definitions/Tools.antt =====
-- pkg/stack/stack.go: PgAdmin, WhoamiGo, IMJobRunner. The default values are written where the source points to them.
use im_manager.Base.{true, some, [], ◌∷◌}
use im_manager.Stack.Types.{
  Stack, StackParameters, stateful_set_resource, deployment_resource, unset,
}
use im_manager.Stack.Parameter.{parameter, image_pull_policy}
use im_manager.Stack.Definitions.Database.{dhis2_db}

abbrev pub pg_admin_parameters : StackParameters
pg_admin_parameters =
    (
      "PGADMIN_USERNAME",
      record parameter { priority = 1; display_name = "pgAdmin Username"; sensitive = true },
    )
    ∷ (
      "PGADMIN_PASSWORD",
      record parameter { priority = 2; display_name = "pgAdmin Password"; sensitive = true },
    )
    ∷ (
      "CHART_VERSION",
      record parameter {
        priority = 3;
        display_name = "Chart Version";
        default_value = some "1.33.3";
      },
    )
    ∷ (
      "DATABASE_HOSTNAME",
      record parameter { priority = 0; display_name = "Database Hostname"; consumed = true },
    )
    ∷ (
      "DATABASE_NAME",
      record parameter { priority = 0; display_name = "Database Name"; consumed = true },
    )
    ∷ (
      "DATABASE_USERNAME",
      record parameter {
        priority = 0;
        display_name = "Database Username";
        consumed = true;
        sensitive = true;
      },
    )
    ∷ []

abbrev pub pg_admin : Stack
pg_admin = record {
  detail = record {
    name = "pgadmin";
    parameters = pg_admin_parameters;
    hostname_pattern = "";
    hostname_variable = "";
    parameter_providers = [];
    kubernetes_resource = stateful_set_resource;
  };
  requires = dhis2_db.detail ∷ [];
  companions = [];
}

abbrev pub whoami_go_parameters : StackParameters
whoami_go_parameters =
    (
      "IMAGE_TAG",
      record parameter { priority = 1; display_name = "Image Tag"; default_value = some "0.6.0" },
    )
    ∷ (
      "IMAGE_REPOSITORY",
      record parameter {
        priority = 2;
        display_name = "Image Repository";
        default_value = some "whoami-go";
      },
    )
    ∷ (
      "IMAGE_PULL_POLICY",
      record parameter {
        priority = 3;
        display_name = "Image Pull Policy";
        default_value = some "IfNotPresent";
        validator = some image_pull_policy;
      },
    )
    ∷ (
      "REPLICA_COUNT",
      record parameter { priority = 4; display_name = "Replica Count"; default_value = some "1" },
    )
    ∷ (
      "CHART_VERSION",
      record parameter {
        priority = 5;
        display_name = "Chart Version";
        default_value = some "0.9.0";
      },
    )
    ∷ []

abbrev pub whoami_go : Stack
whoami_go = record {
  detail = record {
    name = "whoami-go";
    parameters = whoami_go_parameters;
    hostname_pattern = "";
    hostname_variable = "";
    parameter_providers = [];
    kubernetes_resource = deployment_resource;
  };
  requires = [];
  companions = [];
}

abbrev pub im_job_runner_parameters : StackParameters
im_job_runner_parameters =
    ("COMMAND", record parameter { priority = 0; display_name = "Command" })
    ∷ (
      "PAYLOAD",
      record parameter { priority = 0; display_name = "Payload"; default_value = some "-" },
    )
    ∷ (
      "DHIS2_DATABASE_DATABASE",
      record parameter {
        priority = 0;
        display_name = "DHIS2 Database Name";
        default_value = some "dhis2";
      },
    )
    ∷ (
      "DHIS2_DATABASE_HOSTNAME",
      record parameter {
        priority = 0;
        display_name = "DHIS2 Database Hostname";
        default_value = some "-";
      },
    )
    ∷ (
      "DHIS2_DATABASE_PASSWORD",
      record parameter {
        priority = 0;
        display_name = "DHIS2 Database Password";
        default_value = some "dhis";
        sensitive = true;
      },
    )
    ∷ (
      "DHIS2_DATABASE_PORT",
      record parameter {
        priority = 0;
        display_name = "DHIS2 Database Port";
        default_value = some "5432";
      },
    )
    ∷ (
      "DHIS2_DATABASE_USERNAME",
      record parameter {
        priority = 0;
        display_name = "DHIS2 Database Username";
        default_value = some "dhis";
        sensitive = true;
      },
    )
    ∷ (
      "DHIS2_HOSTNAME",
      record parameter { priority = 0; display_name = "DHIS2 Hostname"; default_value = some "-" },
    )
    ∷ (
      "CHART_VERSION",
      record parameter {
        priority = 0;
        display_name = "Chart Version";
        default_value = some "0.1.0";
      },
    )
    ∷ []

abbrev pub im_job_runner : Stack
im_job_runner = record {
  detail = record {
    name = "im-job-runner";
    parameters = im_job_runner_parameters;
    hostname_pattern = "";
    hostname_variable = "";
    parameter_providers = [];
    kubernetes_resource = unset;
  };
  requires = [];
  companions = [];
}
