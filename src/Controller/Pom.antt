-- ===== src/Controller/Pom.antt =====
-- pkg/controller/virtualdatabase/pom.go: the Maven projects of the builds.
pub mod Laws
pub mod Plugins
use teiid_operator.Prelude.{
  Bool, true, false, not, ◌||◌, Option, none, some, List, [], ◌∷◌, ◌++◌, if◌then◌else◌, for_each,
}
use teiid_operator.Text.{Str, codes}
use teiid_operator.Result.{Result, ok, err, ◌>>=◌}
use teiid_operator.Envvar.{get}
use teiid_operator.Maven.Types.{
  Dependency, Repository, RepositoryPolicy, Project, Plugin, Execution, Configuration, ArtifactItem,
  Build, Parent,
}
use teiid_operator.Maven.Gav.{parse_gav}
use teiid_operator.Maven.Project.{
  add_dependency, add_build_plugin, prepend_build_plugin, add_repository, add_plugin_repository,
  new_repository,
}
use teiid_operator.Table.{lookup}
use teiid_operator.Vdbutil.{DatasourceInfo}
use teiid_operator.Vdb.{
  VirtualDatabase, ExposeType, expose_via_3scale, load_balancer, node_port, route,
}
use teiid_operator.Spring.Convert.{ConnectionFactory}
use teiid_operator.Controller.Config.{Config, get_maven_repositories}

-- maven.Dependency with the three coordinates that a literal of the source gives.
abbrev pub artifact : Str → Str → Str → Dependency
artifact group_id artifact_id version = record {
  group_id = group_id;
  artifact_id = artifact_id;
  version = version;
  type = [];
  classifier = [];
  scope = [];
  exclusions = none;
}

abbrev enabled_only : Bool → RepositoryPolicy
enabled_only enabled = record { enabled = enabled; update_policy = []; checksum_policy = [] }

abbrev pub snapshots_repo : Repository
snapshots_repo = record {
  id = codes "snapshots-repo";
  name = [];
  url = codes "https://oss.sonatype.org/content/repositories/snapshots";
  snapshots = enabled_only true;
  releases = enabled_only false;
}

abbrev pub no_configuration : Configuration
no_configuration = record {
  artifact_items = [];
  output_directory = [];
  vdb_file = [];
  materialization_enable = false;
  vdb_version = [];
  materialization_type = [];
}

abbrev maven_project : Str → Str → Parent → List Dependency → List Plugin → Project
maven_project name packaging parent dependencies plugins = record {
  xml_name = codes "project";
  xmlns = codes "http://maven.apache.org/POM/4.0.0";
  xmlns_xsi = codes "http://www.w3.org/2001/XMLSchema-instance";
  xsi_schema_location =
      codes "http://maven.apache.org/POM/4.0.0 http://maven.apache.org/xsd/maven-4.0.0.xsd";
  model_version = codes "4.0.0";
  group_id = codes "io.integration";
  artifact_id = name;
  version = codes "1.0.0";
  packaging = packaging;
  parent = parent;
  properties = [];
  dependency_management = [];
  dependencies = dependencies;
  repositories = snapshots_repo ∷ [];
  plugin_repositories = snapshots_repo ∷ [];
  build = record { default_goal = []; plugins = plugins };
}

abbrev pub teiid : Str
teiid = codes "org.teiid"

module _ (config : Config) where
  abbrev pub spring : Str → Dependency
  spring artifact_id = artifact teiid artifact_id config.teiid_spring_boot_version

  unfoldable pub create_maven_project : Str → Project
  create_maven_project name =
      maven_project name (codes "jar")
        (record {
          group_id = codes "org.basepom";
          artifact_id = codes "basepom-oss";
          version = codes "30";
        })
        (spring (codes "teiid-spring-boot-starter")
          ∷ artifact (codes "org.springframework.boot") (codes "spring-boot-starter-actuator")
              config.spring_boot_version
          ∷ artifact (codes "io.opentracing.contrib")
              (codes "opentracing-spring-jaeger-web-starter") (codes "1.0.1")
          ∷ artifact (codes "com.h2database") (codes "h2") (codes "1.4.199")
          ∷ [])
        (record {
          group_id = codes "org.springframework.boot";
          artifact_id = codes "spring-boot-maven-plugin";
          version = config.spring_boot_version;
          executions =
              record {
                id = codes "repackage";
                phase = codes "package";
                goals = codes "repackage" ∷ [];
                configuration = no_configuration;
              }
              ∷ [];
          dependencies = [];
        }
          ∷ [])

  unfoldable pub create_plain_maven_project : Str → Project
  create_plain_maven_project name =
      maven_project name (codes "pom") (record { group_id = []; artifact_id = []; version = [] }) []
        []

  unfoldable pub add_factory : Project → ConnectionFactory → Project
  add_factory project cf = add_dependency project (spring (codes "spring-data-" ++ cf.name))

  -- The loop over the coordinates of the custom resource, which ends at the first that is no coordinate.
  unfoldable pub add_gavs : Project → List Str → Result Project
  add_gavs project [] = ok project
  add_gavs project (str ∷ strs) = parse_gav str >>= λ d. add_gavs (add_dependency project d) strs

  -- The table's order is that of the iteration.
  unfoldable pub add_all_factories : Project → List (Str × ConnectionFactory) → Project
  add_all_factories = for_each (λ p kv. add_factory p kv.1)

  unfoldable pub add_source : Project → DatasourceInfo → Project
  add_source project s = elim (lookup config.connection_factories s.type) [
    | some cf ↦ add_factory project cf
    | none ↦ project
  ]

  unfoldable pub add_expose : Project → ExposeType → Project
  add_expose project expose_via_3scale = add_dependency project (spring (codes "spring-keycloak"))
  add_expose project _ = project

  unfoldable pub add_if : Bool → Dependency → Project → Project
  add_if b d project = if b then add_dependency project d else project

  abbrev pub has_keycloak : VirtualDatabase → Bool
  has_keycloak vdb = elim (get vdb.spec.env (codes "KEYCLOAK_AUTH_SERVER_URL")) [
    | none ↦ false
    | some _ ↦ true
  ]

  -- What follows the coordinates of the custom resource.
  unfoldable pub complete_vdb_pom :
      VirtualDatabase → List DatasourceInfo → Bool → Bool → Bool → Project → Project
  complete_vdb_pom vdb sources all open_api ispn project =
      let sourced =
        if all
        then add_all_factories project config.connection_factories
        else for_each add_source project sources in
      let exposed = for_each add_expose sourced vdb.spec.expose in
      let cached = add_if ispn (spring (codes "spring-data-infinispan-hotrod")) exposed in
      let secured = add_if (all || has_keycloak vdb) (spring (codes "spring-keycloak")) cached in
      let documented = add_if (open_api || all) (spring (codes "spring-openapi")) secured in
      let served = add_if (not open_api || all) (spring (codes "spring-odata")) documented in
      add_dependency served
        (artifact (codes "me.snowdrop") (codes "narayana-spring-boot-starter") (codes "2.1.0"))

  unfoldable pub generate_vdb_pom :
      VirtualDatabase → List DatasourceInfo → Bool → Bool → Bool → Result Project
  generate_vdb_pom vdb sources all open_api ispn =
      add_gavs (create_maven_project vdb.name) vdb.spec.build.source.dependencies >>= λ project.
      ok (complete_vdb_pom vdb sources all open_api ispn project)

  -- The text that the repositories of a table are made from.
  abbrev pub repository_text : Str → Str → Str
  repository_text k v = v ++ codes "@id=" ++ k

  unfoldable pub generate_jar_pom : VirtualDatabase → Project
  generate_jar_pom vdb =
      for_each
        (λ p kv.
          add_plugin_repository (add_repository p (new_repository (repository_text kv.0 kv.1)))
            (new_repository (repository_text kv.0 kv.1)))
        (create_plain_maven_project vdb.name) (get_maven_repositories config vdb)
