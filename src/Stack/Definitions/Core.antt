-- ===== src/Stack/Definitions/Core.antt =====
-- pkg/stack/stack.go: DHIS2Core. The default values are written where the source points to them.
use im_manager.Base.{true, some, [], ◌∷◌}
use im_manager.Stack.Types.{Stack, StackParameters, deployment_resource}
use im_manager.Stack.Parameter.{
  parameter, image_pull_policy, storage, same_site_cookies, storage_companion_provider,
}
use im_manager.Stack.Definitions.Database.{dhis2_db, minio}
use im_manager.Stack.Definitions.Chap.{chap_core}

abbrev pub dhis2_core_parameters : StackParameters
dhis2_core_parameters =
    (
      "IMAGE_TAG",
      record parameter { priority = 1; display_name = "Image Tag"; default_value = some "2.40.2" },
    )
    ∷ (
      "IMAGE_REPOSITORY",
      record parameter {
        priority = 2;
        display_name = "Image Repository";
        default_value = some "core";
      },
    )
    ∷ (
      "IMAGE_PULL_POLICY",
      record parameter {
        priority = 3;
        display_name = "Image Pull Policy";
        default_value = some "IfNotPresent";
        validator = some image_pull_policy;
      },
    )
    ∷ (
      "STORAGE_TYPE",
      record parameter {
        priority = 4;
        display_name = "Storage type";
        default_value = some "minio";
        validator = some storage;
        require_companion = some storage_companion_provider;
      },
    )
    ∷ (
      "S3_BUCKET",
      record parameter { priority = 5; display_name = "S3 bucket"; default_value = some "dhis2" },
    )
    ∷ (
      "S3_REGION",
      record parameter {
        priority = 6;
        display_name = "S3 region";
        default_value = some "eu-west-1";
        sensitive = true;
      },
    )
    ∷ (
      "S3_IDENTITY",
      record parameter {
        priority = 7;
        display_name = "S3 identity";
        default_value = some "-";
        sensitive = true;
      },
    )
    ∷ (
      "S3_SECRET",
      record parameter {
        priority = 8;
        display_name = "S3 secret";
        default_value = some "-";
        sensitive = true;
      },
    )
    ∷ (
      "DHIS2_HOME",
      record parameter {
        priority = 9;
        display_name = "DHIS2 Home Directory";
        default_value = some "/opt/dhis2";
      },
    )
    ∷ (
      "FLYWAY_MIGRATE_OUT_OF_ORDER",
      record parameter {
        priority = 10;
        display_name = "Flyway Migrate Out Of Order";
        default_value = some "false";
      },
    )
    ∷ (
      "FLYWAY_REPAIR_BEFORE_MIGRATION",
      record parameter {
        priority = 11;
        display_name = "Flyway Repair Before Migration";
        default_value = some "false";
      },
    )
    ∷ (
      "RESOURCES_REQUESTS_CPU",
      record parameter {
        priority = 12;
        display_name = "Resources Requests CPU";
        default_value = some "250m";
      },
    )
    ∷ (
      "RESOURCES_REQUESTS_MEMORY",
      record parameter {
        priority = 13;
        display_name = "Resources Requests Memory";
        default_value = some "1500Mi";
      },
    )
    ∷ (
      "MIN_READY_SECONDS",
      record parameter {
        priority = 14;
        display_name = "Minimum Ready Seconds";
        default_value = some "5";
      },
    )
    ∷ (
      "LIVENESS_PROBE_TIMEOUT_SECONDS",
      record parameter {
        priority = 15;
        display_name = "Liveness Probe Timeout Seconds";
        default_value = some "1";
      },
    )
    ∷ (
      "READINESS_PROBE_TIMEOUT_SECONDS",
      record parameter {
        priority = 16;
        display_name = "Readiness Probe Timeout Seconds";
        default_value = some "1";
      },
    )
    ∷ (
      "STARTUP_PROBE_FAILURE_THRESHOLD",
      record parameter {
        priority = 17;
        display_name = "Startup Probe Failure Threshold";
        default_value = some "26";
      },
    )
    ∷ (
      "STARTUP_PROBE_PERIOD_SECONDS",
      record parameter {
        priority = 18;
        display_name = "Startup Probe Period Seconds";
        default_value = some "5";
      },
    )
    ∷ (
      "JAVA_OPTS",
      record parameter { priority = 19; display_name = "JAVA_OPTS"; default_value = some " " },
    )
    ∷ (
      "CHART_VERSION",
      record parameter {
        priority = 20;
        display_name = "Chart Version";
        default_value = some "0.34.11";
      },
    )
    ∷ (
      "ENABLE_QUERY_LOGGING",
      record parameter {
        priority = 21;
        display_name = "Enable Query Logging";
        default_value = some "false";
      },
    )
    ∷ (
      "FILESYSTEM_VOLUME_SIZE",
      record parameter {
        priority = 22;
        display_name =
            "Filesystem volume size (only in effect if \"Storage\" is set to \"filesystem\")";
        default_value = some "8Gi";
        sensitive = true;
      },
    )
    ∷ (
      "SAME_SITE_COOKIES",
      record parameter {
        priority = 23;
        display_name = "Same site cookies";
        default_value = some "lax";
        validator = some same_site_cookies;
      },
    )
    ∷ (
      "CUSTOM_DHIS2_CONFIG",
      record parameter {
        priority = 24;
        display_name = "Custom DHIS2 config (applied to top of dhis.conf)";
        default_value = some " ";
        sensitive = true;
      },
    )
    ∷ (
      "ALLOW_SUSPEND",
      record parameter {
        priority = 25;
        display_name = "Allow the application to be suspended";
        default_value = some "true";
      },
    )
    ∷ (
      "DEPLOY_GLOWROOT",
      record parameter {
        priority = 26;
        display_name = "Deploy Glowroot";
        default_value = some "false";
      },
    )
    ∷ (
      "DEPLOY_CHAP",
      record parameter {
        priority = 27;
        display_name = "Deploy CHAP";
        default_value = some "false";
      },
    )
    ∷ (
      "GOOGLE_AUTH_PROJECT_ID",
      record parameter {
        priority = 0;
        display_name = "Google auth project id";
        default_value = some " ";
        sensitive = true;
      },
    )
    ∷ (
      "GOOGLE_AUTH_PRIVATE_KEY",
      record parameter {
        priority = 0;
        display_name = "Google auth private key";
        default_value = some " ";
        sensitive = true;
      },
    )
    ∷ (
      "GOOGLE_AUTH_PRIVATE_KEY_ID",
      record parameter {
        priority = 0;
        display_name = "Google auth private key id";
        default_value = some " ";
        sensitive = true;
      },
    )
    ∷ (
      "GOOGLE_AUTH_CLIENT_EMAIL",
      record parameter {
        priority = 0;
        display_name = "Google auth client email";
        default_value = some " ";
        sensitive = true;
      },
    )
    ∷ (
      "GOOGLE_AUTH_CLIENT_ID",
      record parameter {
        priority = 0;
        display_name = "Google auth client id";
        default_value = some " ";
        sensitive = true;
      },
    )
    ∷ (
      "DATABASE_HOSTNAME",
      record parameter { priority = 0; display_name = "Database Hostname"; consumed = true },
    )
    ∷ (
      "DATABASE_NAME",
      record parameter { priority = 0; display_name = "Database Name"; consumed = true },
    )
    ∷ (
      "DATABASE_PASSWORD",
      record parameter {
        priority = 0;
        display_name = "Database Password";
        consumed = true;
        sensitive = true;
      },
    )
    ∷ (
      "DATABASE_USERNAME",
      record parameter {
        priority = 0;
        display_name = "Database Username";
        consumed = true;
        sensitive = true;
      },
    )
    ∷ []

abbrev pub dhis2_core : Stack
dhis2_core = record {
  detail = record {
    name = "dhis2-core";
    parameters = dhis2_core_parameters;
    hostname_pattern = "";
    hostname_variable = "";
    parameter_providers = [];
    kubernetes_resource = deployment_resource;
  };
  requires = dhis2_db.detail ∷ [];
  companions = minio.detail ∷ chap_core.detail ∷ [];
}
