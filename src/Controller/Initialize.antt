-- ===== src/Controller/Initialize.antt =====
-- The first step, pkg/controller/virtualdatabase/initialize.go.
pub mod Outcome
use teiid_operator.Prelude.{
  ℕ, Bool, true, false, not, ◌&&◌, Option, none, some, List, [], ◌∷◌, ◌++◌, ◌==◌, if◌then◌else◌,
}
use teiid_operator.Text.{Str, text_Eq, codes}
use teiid_operator.Result.{Err, Result, ok, err}
use teiid_operator.Exec.{Exec, pure, raise, gets, attempt, ◌>>=◌, ◌>>◌}
use teiid_operator.Vdb.{VirtualDatabase, DataSourceObject, initial, create_cache_store}
use teiid_operator.Maven.Types.{Dependency}
use teiid_operator.Maven.Gav.{parse_gav}
use teiid_operator.Controller.Cluster.{Cluster, Context, call}
use teiid_operator.Controller.Kubernetes.{
  validate_environment_property_names, environment_properties_exists,
}
use teiid_operator.Controller.Digest.{compute_for_virtual_database, compute_config_digest}
use teiid_operator.Controller.Actions.{Action, initialize_can_handle, with_phase, edit}

abbrev pub with_failure : Str → VirtualDatabase → VirtualDatabase
with_failure f vdb = record vdb { status = record vdb.status { failure = f } }

abbrev pub with_digest : Str → VirtualDatabase → VirtualDatabase
with_digest d vdb = record vdb { status = record vdb.status { digest = d } }

abbrev pub with_config_digest : Str → VirtualDatabase → VirtualDatabase
with_config_digest d vdb = record vdb { status = record vdb.status { config_digest = d } }

unfoldable pub default_replicas : Option ℕ → Option ℕ
default_replicas none = some 1
default_replicas (some n) = some n

unfoldable pub first_version : VirtualDatabase → Str
first_version vdb =
    if vdb.spec.build.source.version == []
      && (not (vdb.spec.build.source.ddl == []) && vdb.status.version == [])
    then codes "1"
    else vdb.status.version

unfoldable pub maven_version : Str → Result Dependency → Str
maven_version version (ok dep) = dep.version
maven_version version (err e) = version

-- `init`, which never fails: coordinates that do not parse leave the version as it is.
unfoldable pub init : VirtualDatabase → VirtualDatabase
unfolding maven_version
init vdb = record vdb {
  spec = record vdb.spec { replicas = default_replicas vdb.spec.replicas };
  status = record vdb.status {
    version =
        if vdb.spec.build.source.maven == []
        then first_version vdb
        else maven_version (first_version vdb) (parse_gav vdb.spec.build.source.maven);
  };
}

abbrev pub invalid_names : Str
invalid_names =
    codes
      "Invalid propertie(s) defined in Environment, make sure they confirm to naming convention of ENV"

abbrev pub configuration_missing : Str
configuration_missing =
    codes "Configuration missing, make sure to supply all the ConfigMaps and Secrets required"

module _ {W : Type 0} (cluster : Cluster W) where
  unfoldable pub sources_exist : Str → List DataSourceObject → Exec W Bool
  sources_exist namespace [] = pure true
  sources_exist namespace (ds ∷ rest) =
      environment_properties_exists cluster namespace ds.properties
      >>= elim [ true ↦ sources_exist namespace rest | false ↦ pure false ]

  -- The digest of the configuration is written even where its computation failed, as the empty text.
  unfoldable pub write_config_digest : Result Str → Exec (Context W) (Unit {0})
  write_config_digest (ok d) = edit (with_config_digest d)
  write_config_digest (err e) = edit (with_config_digest []) >> raise e

  unfoldable pub initialize : Exec (Context W) (Unit {0})
  unfolding write_config_digest
  initialize = do
    vdb ← gets (λ s. s.vdb)
    edit (λ v.
        with_digest (compute_for_virtual_database cluster vdb)
          (init (with_phase create_cache_store (with_failure [] v))))
    now ← gets (λ s. s.vdb)
    r ← attempt (call (compute_config_digest cluster now))
    write_config_digest r

  unfoldable pub when_sources_exist : Bool → Exec (Context W) (Unit {0})
  unfolding initialize
  when_sources_exist true = initialize
  when_sources_exist false = edit (with_failure configuration_missing)

  unfoldable pub when_environment_exists : Bool → Exec (Context W) (Unit {0})
  unfolding when_sources_exist
  when_environment_exists true = do
    vdb ← gets (λ s. s.vdb)
    found ← call (sources_exist vdb.namespace vdb.spec.data_sources)
    when_sources_exist found
  when_environment_exists false = edit (with_failure configuration_missing)

  unfoldable pub when_names_valid : Result (Unit {0}) → Exec (Context W) (Unit {0})
  unfolding when_environment_exists
  when_names_valid (ok _) = do
    vdb ← gets (λ s. s.vdb)
    found ← call (environment_properties_exists cluster vdb.namespace vdb.spec.env)
    when_environment_exists found
  when_names_valid (err e) = edit (with_failure invalid_names) >> raise e

  unfoldable pub when_initial : Bool → Exec (Context W) (Unit {0})
  unfolding when_names_valid
  when_initial true = do
    vdb ← gets (λ s. s.vdb)
    when_names_valid (validate_environment_property_names vdb.spec.env)
  when_initial false = pure tt

  unfoldable pub initialize_handle : Exec (Context W) (Unit {0})
  unfolding when_initial
  initialize_handle = do
    vdb ← gets (λ s. s.vdb)
    when_initial (initialize_can_handle vdb.status.phase)

  unfoldable pub initialize_action : Action W
  initialize_action = record {
    can_handle = λ vdb. initialize_can_handle vdb.status.phase;
    handle = initialize_handle;
  }
