-- ===== src/Controller/Frame/Builds.antt =====
-- The builds: Controller/Payload.antt, Controller/BaseImage.antt, Controller/BuilderImage.antt and
-- Controller/ServiceImage.antt.
use teiid_operator.Prelude.{
  Bool, true, false, List, [], ◌∷◌, ◌&&◌, ◌==◌, nat_Eq, not, if◌then◌else◌,
}
use teiid_operator.Text.{Str, text_Eq, codes}
use teiid_operator.Exec.{pure}
use teiid_operator.Vdb.{VirtualDatabase}
use teiid_operator.Vdbutil.{
  parse_data_sources_info_from_ddl, should_materialize, validate_data_source_names,
}
use teiid_operator.Maven.Gav.{parse_gav}
use teiid_operator.Controller.Config.{Config, get_maven_repositories, builder_image_target_name}
use teiid_operator.Controller.Cluster.{Cluster, BuildConfig, BuildRun}
use teiid_operator.Controller.Pom.{generate_vdb_pom, generate_jar_pom}
use teiid_operator.Controller.Pom.Plugins.{add_copy_plug_in, add_vdb_code_gen_plug_in}
use teiid_operator.Controller.Ddl.{fetch_ddl}
use teiid_operator.Controller.Images.{check_image_stream, read_maven_settings_file, repositories_of}
use teiid_operator.Controller.CacheStore.{ignore_cache_store}
use teiid_operator.Controller.Payload.{
  build_jar_based_payload, build_vdb_based_payload, payload_of, is_fat_jar_build,
}
use teiid_operator.Controller.BaseImage.{
  ddl_file, ddl_path, base_vdb, import_base_image, build_bc, with_base_plugins, trigger_base_build,
}
use teiid_operator.Controller.BuilderImage.{has_failed, get_builds, retry_builds, start_builds}
use teiid_operator.Controller.Frame.{Keeps, Frame, Keeps-bind, Keeps-continue, Keeps-if}
use teiid_operator.Controller.Frame.Downloads.{fetch_ddl-Keeps}
use teiid_operator.Controller.Frame.Stores.{
  check_image_stream-Keeps, create_image_stream_for-Keeps, read_maven_settings_file-Keeps,
  ignore_cache_store-Keeps, prometheus_config-Keeps,
}

module _ {W : Type 0} {P : W → Type 0} {cluster : Cluster W} (frame : Frame P cluster)
    (config : Config) where
  build_jar_based_payload-Keeps :
      (vdb : VirtualDatabase) → Keeps P (build_jar_based_payload cluster config vdb)
  unfolding build_jar_based_payload
  build_jar_based_payload-Keeps vdb w p =
      Keeps-continue P (parse_gav vdb.spec.build.source.maven) _ w p (λ dep.
        Keeps-continue P
          (cluster.encode_project (
            add_copy_plug_in config dep (codes "jar") (codes "app.jar")
              (codes "${project.build.directory}") (generate_jar_pom config vdb)))
          _ w p (λ content. prometheus_config-Keeps frame vdb.namespace w p))

  build_vdb_based_payload-Keeps :
      (vdb : VirtualDatabase) → Keeps P (build_vdb_based_payload cluster config vdb)
  unfolding build_vdb_based_payload
  build_vdb_based_payload-Keeps vdb =
      Keeps-bind P (fetch_ddl cluster config vdb (codes "/tmp/teiid.vdb")) _
        (fetch_ddl-Keeps frame config vdb (codes "/tmp/teiid.vdb"))
        (λ ddl.
          Keeps-bind P (ignore_cache_store cluster vdb) _ (ignore_cache_store-Keeps frame vdb)
            (λ ignored w p.
              Keeps-continue P (validate_data_source_names (parse_data_sources_info_from_ddl ddl)) _
                w p
                (λ a.
                  Keeps-continue P
                    (generate_vdb_pom config vdb (parse_data_sources_info_from_ddl ddl) false
                      (not (vdb.spec.build.source.open_api == []))
                      (should_materialize ddl && not ignored))
                    _ w p
                    (λ pom.
                      Keeps-continue P
                        (cluster.encode_project (
                          add_vdb_code_gen_plug_in config
                            (codes "/tmp/src/src/main/resources/teiid.ddl")
                            (should_materialize ddl && not ignored) vdb.status.version pom))
                        _ w p
                        (λ content.
                          Keeps-bind P
                            (read_maven_settings_file cluster vdb (repositories_of config vdb)) _
                            (read_maven_settings_file-Keeps frame vdb (repositories_of config vdb))
                            (λ settings. prometheus_config-Keeps frame vdb.namespace) w p)))))

  pub payload_of-Keeps : (vdb : VirtualDatabase) → Keeps P (payload_of cluster config vdb)
  unfolding payload_of
  payload_of-Keeps vdb =
      Keeps-if P (is_fat_jar_build vdb) _ _ (build_jar_based_payload-Keeps vdb)
        (build_vdb_based_payload-Keeps vdb)

  import_base_image-Keeps :
      (vdb : VirtualDatabase) (b : Bool) → Keeps P (import_base_image cluster config vdb b)
  unfolding import_base_image
  import_base_image-Keeps vdb true = λ w p. p
  import_base_image-Keeps vdb false = create_image_stream_for-Keeps frame _ _ _ _

  pub build_bc-Keeps : (vdb : VirtualDatabase) → Keeps P (build_bc cluster config vdb)
  unfolding build_bc
  build_bc-Keeps vdb =
      Keeps-bind P (check_image_stream cluster config.build_image.image_name vdb.namespace) _
        (check_image_stream-Keeps frame config.build_image.image_name vdb.namespace)
        (λ there.
          Keeps-bind P (import_base_image cluster config vdb there) _
            (import_base_image-Keeps vdb there) (λ a w p. p))

  trigger_base_build-Keeps :
      (bc : BuildConfig) (repositories : List (Str × Str))
      → Keeps P (trigger_base_build cluster config bc repositories)
  unfolding trigger_base_build
  trigger_base_build-Keeps bc repositories =
      let copy : VirtualDatabase = base_vdb bc.namespace repositories in
      Keeps-bind P (cluster.get_build_config bc.namespace bc.name) _
        (frame.get_build_config bc.namespace bc.name)
        (λ build_config w p.
          Keeps-continue P
            (generate_vdb_pom config copy (parse_data_sources_info_from_ddl ddl_file) true true
              true)
            _ w p
            (λ pom. Keeps-continue P (with_base_plugins cluster config pom) _ w p (λ complete.
              Keeps-continue P (cluster.encode_project complete) _ w p (λ content.
                Keeps-bind P (read_maven_settings_file cluster copy (repositories_of config copy)) _
                  (read_maven_settings_file-Keeps frame copy (repositories_of config copy))
                  (λ settings.
                    let files : List (Str × Str) =
                      (codes "/configuration/settings.xml", settings)
                      ∷ (codes "/pom.xml", content)
                      ∷ (ddl_path cluster config, ddl_file)
                      ∷ [] in
                    Keeps-bind P (cluster.tar files) _ (frame.tar files)
                      (λ archive. frame.start_binary_build _ _ archive))
                  w p))))

  pub get_builds-Keeps : (vdb : VirtualDatabase) → Keeps P (get_builds cluster config vdb)
  unfolding get_builds
  get_builds-Keeps vdb = frame.list_builds vdb.namespace builder_image_target_name

  retry_builds-Keeps :
      (vdb : VirtualDatabase) (bc : BuildConfig) (builds : List BuildRun)
      → Keeps P (retry_builds cluster config vdb bc builds)
  unfolding retry_builds
  retry_builds-Keeps vdb bc [] = λ w p. p
  retry_builds-Keeps vdb bc (b ∷ builds) =
      Keeps-bind P
        (if has_failed b.phase
          then trigger_base_build cluster config bc (get_maven_repositories config vdb)
          else pure tt)
        _
        (Keeps-if P (has_failed b.phase) _ _
          (trigger_base_build-Keeps bc (get_maven_repositories config vdb)) (λ w p. p))
        (λ a. retry_builds-Keeps vdb bc builds)

  pub start_builds-Keeps :
      (vdb : VirtualDatabase) (bc : BuildConfig) → Keeps P (start_builds cluster config vdb bc)
  unfolding start_builds
  start_builds-Keeps vdb bc =
      Keeps-if P (bc.last_version == 0) _ _
        (trigger_base_build-Keeps bc (get_maven_repositories config vdb))
        (Keeps-bind P (get_builds cluster config vdb) (retry_builds cluster config vdb bc)
          (get_builds-Keeps vdb) (retry_builds-Keeps vdb bc))
