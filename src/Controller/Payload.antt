-- ===== src/Controller/Payload.antt =====
-- The files of a service's build: the payload functions of
-- pkg/controller/virtualdatabase/service_image.go.
use teiid_operator.Prelude.{Bool, false, not, ◌&&◌, List, [], ◌∷◌, ◌++◌, ◌==◌, if◌then◌else◌}
use teiid_operator.Text.{Str, text_Eq, codes, contains, join}
use teiid_operator.Exec.{Exec, pure, lift, ◌>>=◌, ◌>>◌}
use teiid_operator.Vdb.{VirtualDatabase}
use teiid_operator.Vdbutil.{
  parse_data_sources_info_from_ddl, should_materialize, validate_data_source_names,
}
use teiid_operator.Maven.Gav.{parse_gav}
use teiid_operator.Controller.Config.{
  Config, keystore_location, keystore_name, keystore_password, truststore_name,
}
use teiid_operator.Controller.Cluster.{Cluster}
use teiid_operator.Controller.Pom.{generate_vdb_pom, generate_jar_pom}
use teiid_operator.Controller.Pom.Plugins.{add_copy_plug_in, add_vdb_code_gen_plug_in}
use teiid_operator.Controller.Ddl.{fetch_ddl}
use teiid_operator.Controller.CacheStore.{ignore_cache_store}
use teiid_operator.Controller.Monitor.{prometheus_config}
use teiid_operator.Controller.Images.{read_maven_settings_file, repositories_of}

-- A build from an archive that is no database, by the coordinates.
unfoldable pub is_fat_jar_build : VirtualDatabase → Bool
unfolding contains
is_fat_jar_build vdb =
    not (vdb.spec.build.source.maven == [])
    && not (contains vdb.spec.build.source.maven (codes ":vdb:"))

unfoldable pub application_properties : Str → Str → Str
unfolding join
application_properties vdb_property vdb_name =
    join
      (codes "logging.level.io.jaegertracing.internal.reporters=WARN"
        ∷ codes "logging.level.i.j.internal.reporters.LoggingReporter=WARN"
        ∷ codes "logging.level.org.teiid.SECURITY=WARN"
        ∷ codes "spring.main.allow-bean-definition-overriding=true"
        ∷ codes "teiid.jdbc-secure-enable=true"
        ∷ codes "teiid.pg-secure-enable=true"
        ∷ codes "teiid.jdbc-enable=true"
        ∷ codes "teiid.pg-enable=true"
        ∷ codes "teiid.ssl.keyStoreType=pkcs12"
        ∷ (codes "teiid.ssl.keyStoreFileName=" ++ keystore_location ++ codes "/" ++ keystore_name)
        ∷ (codes "teiid.ssl.keyStorePassword=" ++ keystore_password)
        ∷ (codes "teiid.ssl.trustStoreFileName="
            ++ keystore_location
            ++ codes "/"
            ++ truststore_name)
        ∷ (codes "teiid.ssl.trustStorePassword=" ++ keystore_password)
        ∷ (codes "keycloak.truststore=" ++ keystore_location ++ codes "/" ++ truststore_name)
        ∷ (codes "keycloak.truststore-password=" ++ keystore_password)
        ∷ codes "springfox.documentation.swagger.v2.path=/openapi.json"
        ∷ codes "spring.teiid.model.package=io.integration"
        ∷ (codes "spring.application.name=" ++ vdb_name)
        ∷ codes "management.health.mongo.enabled=false"
        ∷ codes "management.health.db.enabled=false"
        ∷ vdb_property
        ∷ [])
      (10 ∷ [])

abbrev pub resources : Str → Str
resources name = codes "/src/main/resources/" ++ name

-- The OpenAPI document, where the database has one.
unfoldable pub open_api_files : VirtualDatabase → List (Str × Str)
open_api_files vdb =
    if vdb.spec.build.source.open_api == []
    then []
    else (resources (codes "openapi.json"), vdb.spec.build.source.open_api) ∷ []

module _ {W : Type 0} (cluster : Cluster W) (config : Config) where
  unfoldable pub build_jar_based_payload : VirtualDatabase → Exec W (List (Str × Str))
  unfolding generate_jar_pom parse_gav add_copy_plug_in prometheus_config
  build_jar_based_payload vdb = do
    dep ← lift (parse_gav vdb.spec.build.source.maven)
    pom_content ← lift (
        cluster.encode_project (
          add_copy_plug_in config dep (codes "jar") (codes "app.jar")
            (codes "${project.build.directory}") (generate_jar_pom config vdb)))
    rules ← prometheus_config cluster vdb.namespace
    pure ((codes "/pom.xml", pom_content) ∷ (resources (codes "prometheus-config.yml"), rules) ∷ [])

  unfoldable pub build_vdb_based_payload : VirtualDatabase → Exec W (List (Str × Str))
  unfolding open_api_files fetch_ddl ignore_cache_store should_materialize
      parse_data_sources_info_from_ddl validate_data_source_names generate_vdb_pom
      add_vdb_code_gen_plug_in repositories_of read_maven_settings_file prometheus_config
      application_properties
  build_vdb_based_payload vdb = do
    ddl ← fetch_ddl cluster config vdb (codes "/tmp/teiid.vdb")
    ignored ← ignore_cache_store cluster vdb
    let needs_cache_store = should_materialize ddl && not ignored
    let sources = parse_data_sources_info_from_ddl ddl
    lift (validate_data_source_names sources)
    pom ← lift (
        generate_vdb_pom config vdb sources false (not (vdb.spec.build.source.open_api == []))
          needs_cache_store)
    pom_content ← lift (
        cluster.encode_project (
          add_vdb_code_gen_plug_in config (codes "/tmp/src/src/main/resources/teiid.ddl")
            needs_cache_store vdb.status.version pom))
    settings ← read_maven_settings_file cluster vdb (repositories_of config vdb)
    rules ← prometheus_config cluster vdb.namespace
    let vdb_file =
        if needs_cache_store
        then codes "teiid.vdb-file=materialized.ddl"
        else codes "teiid.vdb-file=teiid.ddl"
    pure (
        open_api_files vdb
        ++ (resources (codes "teiid.ddl"), ddl)
          ∷ (codes "/configuration/settings.xml", settings)
          ∷ (codes "/pom.xml", pom_content)
          ∷ (resources (codes "prometheus-config.yml"), rules)
          ∷ (resources (codes "application.properties"), application_properties vdb_file vdb.name)
          ∷ [])

  unfoldable pub payload_of : VirtualDatabase → Exec W (List (Str × Str))
  unfolding is_fat_jar_build build_jar_based_payload build_vdb_based_payload
  payload_of vdb =
      if is_fat_jar_build vdb then build_jar_based_payload vdb else build_vdb_based_payload vdb
