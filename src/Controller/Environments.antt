-- ===== src/Controller/Environments.antt =====
-- The environment of a deployment: pkg/controller/virtualdatabase/default_envs.go, CredentialsAsEnv of
-- pkg/util/cachestore/infinispan.go, and deploymentEnvironments of deployment.go.
pub mod Kept
use teiid_operator.Prelude.{
  Bool, true, false, not, ◌&&◌, Option, none, some, List, [], ◌∷◌, ◌++◌, ◌==◌, if◌then◌else◌,
  for_each,
}
use teiid_operator.Text.{Str, text_Eq, codes, join}
use teiid_operator.Result.{ok, err}
use teiid_operator.Exec.{Exec, pure, lift, attempt, ◌>>=◌, ◌>>◌}
use teiid_operator.Envvar.{EnvVar, EnvVarSource, field_source, set_var, add_missing, combine, clone}
use teiid_operator.Proxy.{Environ, Props, http_settings}
use teiid_operator.Vdb.{VirtualDatabase}
use teiid_operator.Vdbutil.{parse_data_sources_info_from_ddl}
use teiid_operator.Spring.Convert.{convert2_spring_properties}
use teiid_operator.Controller.Config.{Config}
use teiid_operator.Controller.Cluster.{Cluster}
use teiid_operator.Controller.Kubernetes.{has_secret}
use teiid_operator.Controller.Ddl.{fetch_ddl}

-- The system properties on a command line; the table's order is that of the iteration.
unfoldable pub java_properties : Props → Str
java_properties properties =
    for_each (λ text kv. text ++ codes "-D" ++ kv.0 ++ codes "=" ++ kv.1 ++ codes " ") [] properties

abbrev pub java_options : Str
java_options =
    codes
      "  -Djava.net.preferIPv4Stack=true -Duser.home=/tmp -Djava.net.preferIPv4Addresses=true -Djava.net.useSystemProxies=true"

abbrev pub plain_var : Str → Str → EnvVar
plain_var name value = record { name = name; value = value; value_from = none }

abbrev pub field_var : Str → Str → EnvVar
field_var name path = record { name = name; value = []; value_from = some (field_source path) }

-- The variables that every deployment has.
unfoldable pub default_env : Props → List EnvVar
default_env properties =
    plain_var (codes "JAVA_APP_DIR") (codes "/deployments")
    ∷ plain_var (codes "JAVA_OPTIONS") (java_properties properties ++ java_options)
    ∷ plain_var (codes "JAVA_DEBUG") (codes "false")
    ∷ plain_var (codes "AB_JMX_EXPORTER_CONFIG")
        (codes "/tmp/src/src/main/resources/prometheus-config.yml")
    ∷ field_var (codes "NAMESPACE") (codes "metadata.namespace")
    ∷ field_var (codes "TEIID_NODENAME") (codes "spec.nodeName")
    ∷ field_var (codes "TEIID_PODNAME") (codes "metadata.name")
    ∷ []

unfoldable pub get_default_envs : Environ → List EnvVar → List EnvVar
unfolding clone http_settings default_env add_missing
get_default_envs os user_defined =
    let (all_envs, properties) = http_settings os (clone user_defined) in
    add_missing all_envs (default_env properties)

unfoldable pub get_default_jaeger_envs : Str → List EnvVar
unfolding set_var
get_default_jaeger_envs service_name =
    set_var
      (set_var (set_var [] (plain_var (codes "JAEGER_AGENT_HOST") (codes "localhost")))
        (plain_var (codes "JAEGER_AGENT_PORT") (codes "6831")))
      (plain_var (codes "JAEGER_SERVICE_NAME") service_name)

abbrev pub secret_var : Str → Str → Str → EnvVar
secret_var name secret key = record {
  name = name;
  value = [];
  value_from = some (record {
    field_ref = none;
    config_map_key_ref = none;
    secret_key_ref = some (record { name = secret; key = key });
  });
}

abbrev pub cache_variable : Str → Str
cache_variable key = codes "SPRING_TEIID_DATA_INFINISPANHOTROD_CACHESTORE_" ++ key

-- CredentialsAsEnv, from the name of the secret
unfoldable pub cache_store_envs : Str → Str → List EnvVar
unfolding set_var
cache_store_envs secret_name vdb_name = for_each set_var [] (
    secret_var (cache_variable (codes "USERNAME")) secret_name (codes "username")
    ∷ secret_var (cache_variable (codes "PASSWORD")) secret_name (codes "password")
    ∷ secret_var (cache_variable (codes "URL")) secret_name (codes "url")
    ∷ plain_var (cache_variable (codes "TRANSACTIONMODE")) (codes "NON_XA")
    ∷ plain_var (cache_variable (codes "CACHENAME")) vdb_name
    ∷ [])

-- The name `true` stands for any instance.
unfoldable pub any_jaeger : Str → List Str → Bool
any_jaeger name [] = false
any_jaeger name (item ∷ items) =
    if name == codes "true" then true else if item == name then true else any_jaeger name items

module _ {W : Type 0} (cluster : Cluster W) where
  unfoldable pub credentials_as_env : Str → Str → Exec W (List EnvVar)
  unfolding has_secret cache_store_envs
  credentials_as_env vdb_name vdb_namespace = do
    own ← has_secret cluster (vdb_name ++ codes "-cache-store") vdb_namespace
    pure (
        cache_store_envs
          (if own then vdb_name ++ codes "-cache-store" else codes "teiid-cache-store") vdb_name)

  -- HasJaeger of pkg/util/opentracing/client/jaeger.go
  unfoldable pub has_jaeger : Str → Str → Exec W Bool
  unfolding any_jaeger
  has_jaeger namespace name = do
    r ← attempt (cluster.list_jaegers namespace)
    pure (elim r [ ok names ↦ any_jaeger name names | err _ ↦ false ])

  -- Is a tracing instance configured, and there?
  unfoldable pub traces : VirtualDatabase → Exec W Bool
  unfolding has_jaeger
  traces vdb =
      if vdb.spec.jaeger == [] then pure false else has_jaeger vdb.namespace vdb.spec.jaeger

  unfoldable pub add_tracing : VirtualDatabase → List EnvVar → Bool → List EnvVar
  unfolding combine get_default_jaeger_envs
  add_tracing vdb envs true = combine envs (get_default_jaeger_envs vdb.name)
  add_tracing vdb envs false = envs

  unfoldable pub add_cache_store : VirtualDatabase → List EnvVar → Exec W (List EnvVar)
  unfolding credentials_as_env combine
  add_cache_store vdb envs = if vdb.status.cache_store == [] then pure envs else (do
    credentials ← credentials_as_env vdb.name vdb.namespace
    pure (combine envs credentials))

module _ {W : Type 0} (cluster : Cluster W) (config : Config) where
  unfoldable pub deployment_environments : VirtualDatabase → Exec W (List EnvVar)
  unfolding fetch_ddl parse_data_sources_info_from_ddl convert2_spring_properties get_default_envs
      traces add_tracing add_cache_store combine
  deployment_environments vdb = do
    ddl ← fetch_ddl cluster config vdb (codes "/tmp/teiid.vdb")
    data_source_config ← lift (
        convert2_spring_properties config.connection_factories vdb.spec.data_sources
          (parse_data_sources_info_from_ddl ddl))
    jaeger ← traces cluster vdb
    let traced = add_tracing cluster vdb (get_default_envs cluster.environ vdb.spec.env) jaeger
    cached ← add_cache_store cluster vdb traced
    pure (combine cached data_source_config)
