-- ===== src/Stack/Definitions/Chap.antt =====
-- pkg/stack/chap.go: ChapDB, ChapValkey, ChapWorker, ChapCore. The default values are written where the source points to them.
use im_manager.Base.{true, some, [], ◌∷◌}
use im_manager.Stack.Types.{Stack, StackParameters, stateful_set_resource, deployment_resource}
use im_manager.Stack.Parameter.{
  parameter, image_pull_policy, chap_db_hostname_provider, chap_db_secret_provider,
  chap_valkey_hostname_provider, chap_valkey_secret_provider,
}

abbrev pub chap_db_parameters : StackParameters
chap_db_parameters =
    (
      "DATABASE_SIZE",
      record parameter {
        priority = 1;
        display_name = "Database Size";
        default_value = some "10Gi";
      },
    )
    ∷ (
      "DATABASE_NAME",
      record parameter {
        priority = 2;
        display_name = "Database Name";
        default_value = some "chap_core";
      },
    )
    ∷ (
      "DATABASE_PASSWORD",
      record parameter {
        priority = 3;
        display_name = "Database Password";
        default_value = some "chap";
        sensitive = true;
      },
    )
    ∷ (
      "DATABASE_VERSION",
      record parameter {
        priority = 4;
        display_name = "Database Version";
        default_value = some "17";
      },
    )
    ∷ (
      "CHART_VERSION",
      record parameter {
        priority = 5;
        display_name = "Chart Version";
        default_value = some "0.1.4";
      },
    )
    ∷ []

abbrev pub chap_db : Stack
chap_db = record {
  detail = record {
    name = "chap-db";
    parameters = chap_db_parameters;
    hostname_pattern = "";
    hostname_variable = "";
    parameter_providers =
        ("DATABASE_HOSTNAME", chap_db_hostname_provider)
        ∷ ("DATABASE_SECRET", chap_db_secret_provider)
        ∷ [];
    kubernetes_resource = stateful_set_resource;
  };
  requires = [];
  companions = [];
}

abbrev pub chap_valkey_parameters : StackParameters
chap_valkey_parameters =
    (
      "REDIS_STORAGE_SIZE",
      record parameter {
        priority = 1;
        display_name = "Redis Storage Size";
        default_value = some "10Gi";
      },
    )
    ∷ (
      "REDIS_PASSWORD",
      record parameter {
        priority = 2;
        display_name = "Redis Password";
        default_value = some "chap";
        sensitive = true;
      },
    )
    ∷ (
      "CHART_VERSION",
      record parameter {
        priority = 3;
        display_name = "Chart Version";
        default_value = some "0.9.2";
      },
    )
    ∷ []

abbrev pub chap_valkey : Stack
chap_valkey = record {
  detail = record {
    name = "chap-valkey";
    parameters = chap_valkey_parameters;
    hostname_pattern = "";
    hostname_variable = "";
    parameter_providers =
        ("REDIS_HOST", chap_valkey_hostname_provider)
        ∷ ("REDIS_SECRET", chap_valkey_secret_provider)
        ∷ [];
    kubernetes_resource = stateful_set_resource;
  };
  requires = [];
  companions = [];
}

abbrev pub chap_worker_parameters : StackParameters
chap_worker_parameters =
    (
      "IMAGE_TAG",
      record parameter { priority = 1; display_name = "Image Tag"; default_value = some "latest" },
    )
    ∷ (
      "IMAGE_PULL_POLICY",
      record parameter {
        priority = 2;
        display_name = "Image Pull Policy";
        default_value = some "Always";
        validator = some image_pull_policy;
      },
    )
    ∷ (
      "CHART_VERSION",
      record parameter {
        priority = 3;
        display_name = "Chart Version";
        default_value = some "0.1.1";
      },
    )
    ∷ (
      "DATABASE_HOSTNAME",
      record parameter { priority = 0; display_name = "Database Hostname"; consumed = true },
    )
    ∷ (
      "DATABASE_SECRET",
      record parameter { priority = 0; display_name = "Database Secret"; consumed = true },
    )
    ∷ (
      "DATABASE_NAME",
      record parameter { priority = 0; display_name = "Database Name"; consumed = true },
    )
    ∷ (
      "REDIS_HOST",
      record parameter { priority = 0; display_name = "Redis Host"; consumed = true },
    )
    ∷ (
      "REDIS_SECRET",
      record parameter { priority = 0; display_name = "Redis Secret"; consumed = true },
    )
    ∷ []

abbrev pub chap_worker : Stack
chap_worker = record {
  detail = record {
    name = "chap-worker";
    parameters = chap_worker_parameters;
    hostname_pattern = "";
    hostname_variable = "";
    parameter_providers = [];
    kubernetes_resource = deployment_resource;
  };
  requires = chap_db.detail ∷ chap_valkey.detail ∷ [];
  companions = [];
}

abbrev pub chap_core_parameters : StackParameters
chap_core_parameters =
    (
      "IMAGE_TAG",
      record parameter { priority = 1; display_name = "Image Tag"; default_value = some "latest" },
    )
    ∷ (
      "IMAGE_PULL_POLICY",
      record parameter {
        priority = 2;
        display_name = "Image Pull Policy";
        default_value = some "Always";
        validator = some image_pull_policy;
      },
    )
    ∷ (
      "CHART_VERSION",
      record parameter {
        priority = 3;
        display_name = "Chart Version";
        default_value = some "0.1.9";
      },
    )
    ∷ (
      "GOOGLE_SERVICE_ACCOUNT_EMAIL",
      record parameter {
        priority = 4;
        display_name = "Google Service Account Email";
        default_value = some " ";
        sensitive = true;
      },
    )
    ∷ (
      "GOOGLE_SERVICE_ACCOUNT_PRIVATE_KEY",
      record parameter {
        priority = 5;
        display_name = "Google Service Account Key";
        default_value = some " ";
        sensitive = true;
      },
    )
    ∷ (
      "DHIS2_USERNAME",
      record parameter {
        priority = 6;
        display_name = "DHIS2 Username";
        default_value = some "system";
      },
    )
    ∷ (
      "DHIS2_PASSWORD",
      record parameter {
        priority = 7;
        display_name = "DHIS2 Password";
        default_value = some "System123";
        sensitive = true;
      },
    )
    ∷ (
      "DATABASE_HOSTNAME",
      record parameter { priority = 0; display_name = "Database Hostname"; consumed = true },
    )
    ∷ (
      "DATABASE_SECRET",
      record parameter { priority = 0; display_name = "Database Secret"; consumed = true },
    )
    ∷ (
      "DATABASE_NAME",
      record parameter { priority = 0; display_name = "Database Name"; consumed = true },
    )
    ∷ (
      "REDIS_HOST",
      record parameter { priority = 0; display_name = "Redis Host"; consumed = true },
    )
    ∷ (
      "REDIS_SECRET",
      record parameter { priority = 0; display_name = "Redis Secret"; consumed = true },
    )
    ∷ []

abbrev pub chap_core : Stack
chap_core = record {
  detail = record {
    name = "chap-core";
    parameters = chap_core_parameters;
    hostname_pattern = "";
    hostname_variable = "";
    parameter_providers = [];
    kubernetes_resource = deployment_resource;
  };
  requires = chap_db.detail ∷ chap_valkey.detail ∷ [];
  companions = chap_worker.detail ∷ [];
}
