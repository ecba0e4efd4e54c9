-- ===== src/Stack/Definitions/Dhis2.antt =====
-- pkg/stack/stack.go: DHIS2. The default values are written where the source points to them.
use im_manager.Base.{true, some, [], ◌∷◌}
use im_manager.Stack.Types.{Stack, StackParameters, unset}
use im_manager.Stack.Parameter.{parameter, image_pull_policy, postgres_hostname_provider}

abbrev pub dhis2_parameters : StackParameters
dhis2_parameters =
    (
      "IMAGE_TAG",
      record parameter { priority = 1; display_name = "Image Tag"; default_value = some "2.40.2" },
    )
    ∷ (
      "IMAGE_REPOSITORY",
      record parameter {
        priority = 2;
        display_name = "Image Repository";
        default_value = some "core";
      },
    )
    ∷ (
      "IMAGE_PULL_POLICY",
      record parameter {
        priority = 3;
        display_name = "Image Pull Policy";
        default_value = some "IfNotPresent";
        validator = some image_pull_policy;
      },
    )
    ∷ ("DATABASE_ID", record parameter { priority = 4; display_name = "Database" })
    ∷ (
      "DATABASE_NAME",
      record parameter {
        priority = 5;
        display_name = "Database Name";
        default_value = some "dhis2";
      },
    )
    ∷ (
      "DATABASE_PASSWORD",
      record parameter {
        priority = 6;
        display_name = "Database Password";
        default_value = some "dhis";
        sensitive = true;
      },
    )
    ∷ (
      "DATABASE_SIZE",
      record parameter {
        priority = 7;
        display_name = "Database Size";
        default_value = some "20Gi";
      },
    )
    ∷ (
      "DATABASE_USERNAME",
      record parameter {
        priority = 8;
        display_name = "Database Username";
        default_value = some "dhis";
        sensitive = true;
      },
    )
    ∷ (
      "DATABASE_VERSION",
      record parameter {
        priority = 9;
        display_name = "Database Version";
        default_value = some "16";
      },
    )
    ∷ (
      "INSTALL_REDIS",
      record parameter {
        priority = 10;
        display_name = "Install Redis";
        default_value = some "false";
      },
    )
    ∷ (
      "DHIS2_HOME",
      record parameter {
        priority = 11;
        display_name = "DHIS2 Home Directory";
        default_value = some "/opt/dhis2";
      },
    )
    ∷ (
      "FLYWAY_MIGRATE_OUT_OF_ORDER",
      record parameter {
        priority = 12;
        display_name = "Flyway Migrate Out Of Order";
        default_value = some "false";
      },
    )
    ∷ (
      "FLYWAY_REPAIR_BEFORE_MIGRATION",
      record parameter {
        priority = 13;
        display_name = "Flyway Repair Before Migration";
        default_value = some "false";
      },
    )
    ∷ (
      "CORE_RESOURCES_REQUESTS_CPU",
      record parameter {
        priority = 14;
        display_name = "Core Resources Requests CPU";
        default_value = some "250m";
      },
    )
    ∷ (
      "CORE_RESOURCES_REQUESTS_MEMORY",
      record parameter {
        priority = 15;
        display_name = "Core Resources Requests Memory";
        default_value = some "1500Mi";
      },
    )
    ∷ (
      "DB_RESOURCES_REQUESTS_CPU",
      record parameter {
        priority = 16;
        display_name = "DB Resources Requests CPU";
        default_value = some "250m";
      },
    )
    ∷ (
      "DB_RESOURCES_REQUESTS_MEMORY",
      record parameter {
        priority = 17;
        display_name = "DB Resources Requests Memory";
        default_value = some "256Mi";
      },
    )
    ∷ (
      "MIN_READY_SECONDS",
      record parameter {
        priority = 18;
        display_name = "Minimum Ready Seconds";
        default_value = some "5";
      },
    )
    ∷ (
      "LIVENESS_PROBE_TIMEOUT_SECONDS",
      record parameter {
        priority = 19;
        display_name = "Liveness Probe Timeout Seconds";
        default_value = some "1";
      },
    )
    ∷ (
      "READINESS_PROBE_TIMEOUT_SECONDS",
      record parameter {
        priority = 20;
        display_name = "Readiness Probe Timeout Seconds";
        default_value = some "1";
      },
    )
    ∷ (
      "STARTUP_PROBE_FAILURE_THRESHOLD",
      record parameter {
        priority = 21;
        display_name = "Startup Probe Failure Threshold";
        default_value = some "26";
      },
    )
    ∷ (
      "STARTUP_PROBE_PERIOD_SECONDS",
      record parameter {
        priority = 22;
        display_name = "Startup Probe Period Seconds";
        default_value = some "5";
      },
    )
    ∷ (
      "CHART_VERSION",
      record parameter {
        priority = 23;
        display_name = "Chart Version";
        default_value = some "0.34.11";
      },
    )
    ∷ (
      "JAVA_OPTS",
      record parameter { priority = 24; display_name = "JAVA Options"; default_value = some " " },
    )
    ∷ (
      "ENABLE_QUERY_LOGGING",
      record parameter {
        priority = 25;
        display_name = "Enable Query Logging";
        default_value = some "false";
      },
    )
    ∷ (
      "GOOGLE_AUTH_PROJECT_ID",
      record parameter {
        priority = 0;
        display_name = "Google auth project id";
        default_value = some " ";
        sensitive = true;
      },
    )
    ∷ (
      "GOOGLE_AUTH_PRIVATE_KEY",
      record parameter {
        priority = 0;
        display_name = "Google auth private key";
        default_value = some " ";
        sensitive = true;
      },
    )
    ∷ (
      "GOOGLE_AUTH_PRIVATE_KEY_ID",
      record parameter {
        priority = 0;
        display_name = "Google auth private key id";
        default_value = some " ";
        sensitive = true;
      },
    )
    ∷ (
      "GOOGLE_AUTH_CLIENT_EMAIL",
      record parameter {
        priority = 0;
        display_name = "Google auth client email";
        default_value = some " ";
        sensitive = true;
      },
    )
    ∷ (
      "GOOGLE_AUTH_CLIENT_ID",
      record parameter {
        priority = 0;
        display_name = "Google auth client id";
        default_value = some " ";
        sensitive = true;
      },
    )
    ∷ []

abbrev pub dhis2 : Stack
dhis2 = record {
  detail = record {
    name = "dhis2";
    parameters = dhis2_parameters;
    hostname_pattern = "%s-database-postgresql.%s.svc";
    hostname_variable = "";
    parameter_providers = ("DATABASE_HOSTNAME", postgres_hostname_provider) ∷ [];
    kubernetes_resource = unset;
  };
  requires = [];
  companions = [];
}
