-- ===== src/Stack/Definitions/Database.antt =====
-- pkg/stack/stack.go: DHIS2DB, MINIO. The default values are written where the source points to them.
use im_manager.Base.{true, some, [], ◌∷◌}
use im_manager.Stack.Types.{Stack, StackParameters, stateful_set_resource, deployment_resource}
use im_manager.Stack.Parameter.{
  parameter, image_pull_policy, postgres_hostname_provider, minio_hostname_provider,
}

abbrev pub dhis2_db_parameters : StackParameters
dhis2_db_parameters =
    ("DATABASE_ID", record parameter { priority = 1; display_name = "Database" })
    ∷ (
      "DATABASE_SIZE",
      record parameter {
        priority = 2;
        display_name = "Database Size";
        default_value = some "20Gi";
      },
    )
    ∷ (
      "DATABASE_NAME",
      record parameter {
        priority = 3;
        display_name = "Database Name";
        default_value = some "dhis2";
      },
    )
    ∷ (
      "DATABASE_PASSWORD",
      record parameter {
        priority = 4;
        display_name = "Database Password";
        default_value = some "dhis";
        sensitive = true;
      },
    )
    ∷ (
      "DATABASE_USERNAME",
      record parameter {
        priority = 5;
        display_name = "Database Username";
        default_value = some "dhis";
        sensitive = true;
      },
    )
    ∷ (
      "DATABASE_VERSION",
      record parameter {
        priority = 6;
        display_name = "Database Version";
        default_value = some "16";
      },
    )
    ∷ (
      "RESOURCES_REQUESTS_CPU",
      record parameter {
        priority = 7;
        display_name = "Resources Requests CPU";
        default_value = some "250m";
      },
    )
    ∷ (
      "RESOURCES_REQUESTS_MEMORY",
      record parameter {
        priority = 8;
        display_name = "Resources Requests Memory";
        default_value = some "256Mi";
      },
    )
    ∷ (
      "CHART_VERSION",
      record parameter {
        priority = 9;
        display_name = "Chart Version";
        default_value = some "16.4.5";
      },
    )
    ∷ []

abbrev pub dhis2_db : Stack
dhis2_db = record {
  detail = record {
    name = "dhis2-db";
    parameters = dhis2_db_parameters;
    hostname_pattern = "%s-database-postgresql.%s.svc";
    hostname_variable = "";
    parameter_providers = ("DATABASE_HOSTNAME", postgres_hostname_provider) ∷ [];
    kubernetes_resource = stateful_set_resource;
  };
  requires = [];
  companions = [];
}

abbrev pub minio_parameters : StackParameters
minio_parameters =
    (
      "MINIO_STORAGE_SIZE",
      record parameter { priority = 1; display_name = "Storage Size"; default_value = some "8Gi" },
    )
    ∷ (
      "MINIO_CHART_VERSION",
      record parameter {
        priority = 2;
        display_name = "Chart Version";
        default_value = some "14.7.5";
      },
    )
    ∷ (
      "IMAGE_PULL_POLICY",
      record parameter {
        priority = 3;
        display_name = "Image Pull Policy";
        default_value = some "IfNotPresent";
        validator = some image_pull_policy;
      },
    )
    ∷ ("DATABASE_ID", record parameter { priority = 0; display_name = "Database"; consumed = true })
    ∷ []

abbrev pub minio : Stack
minio = record {
  detail = record {
    name = "minio";
    parameters = minio_parameters;
    hostname_pattern = "";
    hostname_variable = "";
    parameter_providers = ("MINIO_HOSTNAME", minio_hostname_provider) ∷ [];
    kubernetes_resource = deployment_resource;
  };
  requires = dhis2_db.detail ∷ [];
  companions = [];
}
