-- ===== src/Stack/Parameter.antt =====
-- pkg/stack/stack.go and pkg/stack/chap.go: the validators and the providers of parameters.
use im_manager.Base.{
  String, ◌<>◌, false, Option, none, some, List, [], ◌∷◌, ◌==◌, string_eq, if◌then◌else◌,
}
use im_manager.Base.Lists.{contains}
use im_manager.Base.Decimal.{decimal}
use im_manager.Errdef.{Result, ok, err, errorf, nil_pointer, ◌>>=◌}
use im_manager.Model.{Group, DeploymentInstance, DeploymentInstanceParameter}
use im_manager.Stack.Types.{StackParameter, ParameterProvider}

-- The zero value.
abbrev pub parameter : StackParameter
parameter = record {
  display_name = "";
  default_value = none;
  consumed = false;
  validator = none;
  priority = 0;
  sensitive = false;
  require_companion = none;
}

-- OneOf
unfoldable pub one_of : List String → String → Result (Unit {0})
one_of valid_values value =
    if contains valid_values value
    then ok tt
    else err (errorf "%q is not valid, only %s are allowed")

unfoldable pub image_pull_policy : String → Result (Unit {0})
unfolding one_of
image_pull_policy = one_of ("Always" ∷ "Never" ∷ "IfNotPresent" ∷ [])

unfoldable pub storage : String → Result (Unit {0})
unfolding one_of
storage = one_of ("minio" ∷ "s3" ∷ "filesystem" ∷ [])

unfoldable pub same_site_cookies : String → Result (Unit {0})
unfolding one_of
same_site_cookies = one_of ("strict" ∷ "lax" ∷ "none" ∷ [])

-- The name of the companion `&MINIO`.
unfoldable pub storage_companion_provider : DeploymentInstanceParameter → Result (Option String)
storage_companion_provider p = if p.value == "minio" then ok (some "minio") else ok none

-- `instance.Group` is a pointer.
group_of : DeploymentInstance → Result Group
group_of instance = elim instance.group [ none ↦ err nil_pointer | some group ↦ ok group ]

-- fmt.Sprintf("%s-%d-<infix>.%s.svc", instance.Name, instance.Group.ID, instance.Group.Namespace)
numbered_host : String → ParameterProvider
unfolding group_of decimal
numbered_host infix' instance = do
  group ← group_of instance
  ok (
      instance.name
      <> ("-" <> (decimal group.id <> ("-" <> (infix' <> ("." <> (group.namespace <> ".svc")))))))

unfoldable pub postgres_hostname_provider : ParameterProvider
unfolding numbered_host
postgres_hostname_provider = numbered_host "database-postgresql"

unfoldable pub minio_hostname_provider : ParameterProvider
unfolding group_of
minio_hostname_provider instance = do
  group ← group_of instance
  ok (instance.name <> ("-minio." <> (group.namespace <> ".svc")))

unfoldable pub chap_db_hostname_provider : ParameterProvider
unfolding numbered_host
chap_db_hostname_provider = numbered_host "chap-db-postgres-rw"

unfoldable pub chap_db_secret_provider : ParameterProvider
unfolding group_of decimal
chap_db_secret_provider instance = do
  group ← group_of instance
  ok (instance.name <> ("-" <> (decimal group.id <> "-chap-db-postgres")))

unfoldable pub chap_valkey_hostname_provider : ParameterProvider
unfolding numbered_host
chap_valkey_hostname_provider = numbered_host "chap-valkey"

unfoldable pub chap_valkey_secret_provider : ParameterProvider
unfolding group_of decimal
chap_valkey_secret_provider instance = do
  group ← group_of instance
  ok (instance.name <> ("-" <> (decimal group.id <> "-chap-valkey-auth")))
