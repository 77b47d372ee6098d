-- ===== src/Controller/Pom/Plugins.antt =====
-- The plug-ins that the builds add to a project, addCopyPlugIn and addVdbCodeGenPlugIn of
-- pkg/controller/virtualdatabase/pom.go.
use teiid_operator.Prelude.{Bool, [], ◌∷◌}
use teiid_operator.Text.{Str, codes}
use teiid_operator.Maven.Types.{Dependency, Project}
use teiid_operator.Maven.Project.{add_build_plugin, prepend_build_plugin}
use teiid_operator.Controller.Config.{Config}
use teiid_operator.Controller.Pom.{no_configuration, teiid}

module _ (config : Config) where
  unfoldable pub add_copy_plug_in : Dependency → Str → Str → Str → Project → Project
  add_copy_plug_in dep type target_name output_directory project =
      add_build_plugin project (record {
        group_id = codes "org.apache.maven.plugins";
        artifact_id = codes "maven-dependency-plugin";
        version = [];
        executions =
            record {
              id = codes "copy-vdb";
              phase = codes "generate-sources";
              goals = codes "copy" ∷ [];
              configuration = record no_configuration {
                artifact_items =
                    record {
                      group_id = dep.group_id;
                      artifact_id = dep.artifact_id;
                      version = dep.version;
                      type = type;
                      destination_file_name = target_name;
                    }
                    ∷ [];
                output_directory = output_directory;
              };
            }
            ∷ [];
        dependencies = [];
      })

  unfoldable pub add_vdb_code_gen_plug_in : Str → Bool → Str → Project → Project
  add_vdb_code_gen_plug_in vdb_file materialization_enable version project =
      prepend_build_plugin project (record {
        group_id = teiid;
        artifact_id = codes "vdb-codegen-plugin";
        version = config.teiid_spring_boot_version;
        executions =
            record {
              id = codes "codegen";
              phase = codes "generate-sources";
              goals = codes "vdb-codegen" ∷ [];
              configuration = record no_configuration {
                vdb_file = vdb_file;
                materialization_type = codes "infinispan-hotrod";
                materialization_enable = materialization_enable;
                vdb_version = version;
              };
            }
            ∷ [];
        dependencies = [];
      })
