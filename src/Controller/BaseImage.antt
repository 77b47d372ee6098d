-- ===== src/Controller/BaseImage.antt =====
-- The build configuration of the base image, and the start of its build: buildBC, triggerBuild and ddlFile of
-- pkg/controller/virtualdatabase/s2i_builder_image.go.
use teiid_operator.Prelude.{Bool, true, false, none, List, [], ◌∷◌, ◌++◌, nat_Eq}
use teiid_operator.Text.{Str, codes}
use teiid_operator.Result.{Result, ok, err}
use teiid_operator.Exec.{Exec, pure, lift, ◌>>=◌, ◌>>◌}
use teiid_operator.Envvar.{EnvVar, set_val}
use teiid_operator.Proxy.{http_settings}
use teiid_operator.Vdb.{VirtualDatabase, initial}
use teiid_operator.Vdbutil.{parse_data_sources_info_from_ddl}
use teiid_operator.Maven.Types.{Project}
use teiid_operator.Maven.Gav.{parse_gav}
use teiid_operator.Controller.Config.{Config, builder_image_target_name}
use teiid_operator.Controller.Cluster.{Cluster, BuildConfig, SourceType}
use teiid_operator.Controller.Pom.{generate_vdb_pom}
use teiid_operator.Controller.Pom.Plugins.{add_copy_plug_in, add_vdb_code_gen_plug_in}
use teiid_operator.Controller.Environments.{java_properties}
use teiid_operator.Controller.Images.{
  default_build_options, check_image_stream, create_image_stream_for, read_maven_settings_file,
  repositories_of,
}

-- The sample database, whose sources the base image is built for.
abbrev pub ddl_file : Str
ddl_file =
    codes "CREATE DATABASE customer OPTIONS (ANNOTATION 'Customer VDB');"
    ++ 9 ∷ 10 ∷ 9 ∷ codes "USE DATABASE customer;"
    ++ 10 ∷ 9 ∷ codes "CREATE FOREIGN DATA WRAPPER h2;"
    ++ 10 ∷ 9 ∷ codes "CREATE SERVER mydb FOREIGN DATA WRAPPER h2;"

-- The resource that the project of the base image is generated from.
unfoldable pub base_vdb : Str → List (Str × Str) → VirtualDatabase
base_vdb namespace maven_repositories = record {
  name = codes "virtualdatabase-image";
  namespace = namespace;
  spec = record {
    replicas = none;
    env = [];
    build = record {
      env = [];
      source = record {
        version = [];
        ddl = ddl_file;
        maven = [];
        open_api = [];
        dependencies = [];
        maven_repositories = maven_repositories;
      };
    };
    resources = record { limits = []; requests = [] };
    jaeger = [];
    data_sources = [];
    expose = [];
  };
  status = record {
    phase = initial;
    digest = [];
    config_digest = [];
    failure = [];
    route = [];
    version = [];
    cache_store = [];
  };
}

module _ {W : Type 0} (cluster : Cluster W) (config : Config) where
  abbrev pub target : Str
  target = builder_image_target_name

  unfoldable pub builder_envs : List EnvVar
  unfolding http_settings java_properties default_build_options set_val
  builder_envs =
      let (envs, properties) = http_settings cluster.environ [] in
      set_val
        (set_val (set_val envs (codes "DEPLOYMENTS_DIR") (codes "/tmp")) (codes "MAVEN_ARGS_APPEND")
          (codes "clean package " ++ java_properties properties ++ default_build_options))
        (codes "ARTIFACT_DIR") (codes "target/")

  unfoldable pub builder_build_config : VirtualDatabase → BuildConfig
  unfolding builder_envs
  builder_build_config vdb = record {
    name = target;
    namespace = vdb.namespace;
    app = [];
    output_to = target ++ codes ":latest";
    source_type = SourceType.other;
    incremental = true;
    env = builder_envs;
    from_name = config.build_image.image_name ++ codes ":" ++ config.build_image.tag;
    from_namespace = vdb.namespace;
    last_version = 0;
  }

  -- The base image comes from the registry where it is not among the local streams.
  unfoldable pub import_base_image : VirtualDatabase → Bool → Exec W (Unit {0})
  unfolding create_image_stream_for
  import_base_image vdb true = pure tt
  import_base_image vdb false =
      create_image_stream_for cluster config.build_image.image_name vdb.namespace
        (config.build_image.registry
          ++ codes "/"
          ++ config.build_image.image_prefix
          ++ codes "/"
          ++ config.build_image.image_name)
        config.build_image.tag

  unfoldable pub build_bc : VirtualDatabase → Exec W BuildConfig
  unfolding check_image_stream import_base_image builder_build_config
  build_bc vdb = do
    there ← check_image_stream cluster config.build_image.image_name vdb.namespace
    import_base_image vdb there
    pure (builder_build_config vdb)

  abbrev pub ddl_path : Str
  ddl_path = codes "/src/main/resources/teiid.ddl"

  abbrev pub with_base_plugins : Project → Result Project
  with_base_plugins pom = elim (parse_gav (codes "org.teiid:teiid-common-core:12.3.1")) [
    | ok dep ↦ ok (
        add_vdb_code_gen_plug_in config (codes "/tmp/src/src/main/resources/teiid.ddl") false
          (codes "0")
          (add_copy_plug_in config dep (codes "jar") (codes "app.jar") (codes "/tmp") pom))
    | err e ↦ err e
  ]

  unfoldable pub trigger_base_build : BuildConfig → List (Str × Str) → Exec W (Unit {0})
  unfolding base_vdb generate_vdb_pom parse_data_sources_info_from_ddl parse_gav add_copy_plug_in
      add_vdb_code_gen_plug_in repositories_of read_maven_settings_file
  trigger_base_build bc maven_repositories = do
    build_config ← cluster.get_build_config bc.namespace bc.name
    let vdb_copy = base_vdb bc.namespace maven_repositories
    pom ← lift (
        generate_vdb_pom config vdb_copy (parse_data_sources_info_from_ddl ddl_file) true true true)
    complete_pom ← lift (with_base_plugins pom)
    pom_content ← lift (cluster.encode_project complete_pom)
    settings ← read_maven_settings_file cluster vdb_copy (repositories_of config vdb_copy)
    files ← cluster.tar (
        (codes "/configuration/settings.xml", settings)
        ∷ (codes "/pom.xml", pom_content)
        ∷ (ddl_path, ddl_file)
        ∷ [])
    cluster.start_binary_build bc.namespace build_config.name files
