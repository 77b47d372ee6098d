-- ===== src/Controller/Images.antt =====
-- Image streams and Maven settings of a build: pkg/util/image/image.go, readMavenSettingsFile of
-- pkg/controller/virtualdatabase/pom.go, and defaultBuildOptions of service_image.go.
use teiid_operator.Prelude.{Bool, true, false, List, [], ◌∷◌, ◌++◌, map}
use teiid_operator.Text.{Str, codes, join, split_byte}
use teiid_operator.Result.{Result, ok, err, not_found}
use teiid_operator.Exec.{Exec, pure, raise, lift, attempt, ◌>>=◌, ◌>>◌}
use teiid_operator.Vdb.{VirtualDatabase}
use teiid_operator.Maven.Settings.{new_default_settings}
use teiid_operator.Maven.Types.{Repository}
use teiid_operator.Maven.Project.{new_repository}
use teiid_operator.Controller.Config.{Config, get_maven_repositories}
use teiid_operator.Controller.Cluster.{Cluster, BuildConfig}
use teiid_operator.Controller.Kubernetes.{
  has_secret, has_config_map, get_secret_ref_value, get_config_map_ref_value, succeeds,
}
use teiid_operator.Controller.Pom.{repository_text}

-- The part of an image's name before the tag.
unfoldable pub stream_name : Str → Str
unfolding split_byte
stream_name name = elim (split_byte name b':') [ [] ↦ [] | w ∷ _ ↦ w ]

unfoldable pub default_build_options : Str
unfolding join
default_build_options =
    join
      (codes " "
        ∷ codes "-Djava.net.useSystemProxies=true"
        ∷ codes "-Dmaven.compiler.source=1.8"
        ∷ codes "-Dmaven.compiler.target=1.8"
        ∷ codes "-DskipTests"
        ∷ codes "-Dmaven.javadoc.skip=true"
        ∷ codes "-Dmaven.site.skip=true"
        ∷ codes "-Dmaven.source.skip=true"
        ∷ codes "-Djacoco.skip=true"
        ∷ codes "-Dcheckstyle.skip=true"
        ∷ codes "-Dfindbugs.skip=true"
        ∷ codes "-Dpmd.skip=true"
        ∷ codes "-Dfabric8.skip=true"
        ∷ codes "-Dbasepom.check.skip-dependency=true"
        ∷ codes "-Dbasepom.check.skip-duplicate-finder=true"
        ∷ codes "-Dbasepom.check.skip-spotbugs=true"
        ∷ codes "-Dbasepom.check.skip-dependency-versions-check=true"
        ∷ codes "-Dbasepom.check.skip-dependency-management=true"
        ∷ codes "-Dbasepom.check.skip-dependency-scope=true"
        ∷ codes "-Dbasepom.check.skip-license=true"
        ∷ codes "-Dbasepom.check.skip-pmd=true"
        ∷ codes "-Dbasepom.check.skip-checkstyle=true"
        ∷ codes "-Dbasepom.check.skip-javadoc=true"
        ∷ codes "-e"
        ∷ codes "-B"
        ∷ [])
      (codes " ")

module _ {W : Type 0} (cluster : Cluster W) where
  unfoldable pub check_image_stream : Str → Str → Exec W Bool
  unfolding stream_name
  check_image_stream name namespace =
      succeeds (cluster.get_image_stream namespace (stream_name name))

  -- Every error of the creation is dropped.
  unfoldable pub create_image_stream_for : Str → Str → Str → Str → Exec W (Unit {0})
  create_image_stream_for name namespace docker_image tag = do
    attempt
        (cluster.create_docker_image_stream namespace name (docker_image ++ codes ":" ++ tag) tag)
    pure tt

  unfoldable pub create_local_image_stream : Str → Str → Exec W (Unit {0})
  unfolding stream_name
  create_local_image_stream tag_ref_name namespace = do
    cluster.set_controller_reference (stream_name tag_ref_name)
    attempt (cluster.create_image_stream namespace (stream_name tag_ref_name))
    pure tt

  -- EnsureImageStream, with an owner
  unfoldable pub ensure_image_stream : Str → Str → Exec W (Unit {0})
  unfolding check_image_stream create_local_image_stream
  ensure_image_stream name namespace =
      check_image_stream name namespace
      >>= elim [ true ↦ pure tt | false ↦ create_local_image_stream name namespace ]

  -- An existing build configuration, or the one that is made where none is found.
  unfoldable pub ensure_build_config : BuildConfig → Result BuildConfig → Exec W BuildConfig
  ensure_build_config wanted (ok bc) = pure bc
  ensure_build_config wanted (err not_found) = do
    attempt (cluster.set_controller_reference wanted.name)
    cluster.create_build_config wanted
  ensure_build_config wanted (err e) = raise e

  abbrev pub settings_key : Str
  settings_key = codes "settings.xml"

  abbrev pub own_settings : VirtualDatabase → Str
  own_settings vdb = vdb.name ++ codes "-maven-settings"

  abbrev pub shared_settings : Str
  shared_settings = codes "teiid-maven-settings"

  -- The settings in the secret or the configuration map of a name, and else what is left.
  unfoldable pub settings_named : Str → Str → Exec W Str → Exec W Str
  unfolding has_secret has_config_map get_secret_ref_value get_config_map_ref_value
  settings_named namespace name otherwise = has_secret cluster name namespace >>= elim [
    | true ↦ get_secret_ref_value cluster namespace (record { name = name; key = settings_key })
    | false ↦ has_config_map cluster name namespace >>= elim [
      | true ↦
          get_config_map_ref_value cluster namespace (record { name = name; key = settings_key })
      | false ↦ otherwise
    ]
  ]

  unfoldable pub read_maven_settings_file : VirtualDatabase → List Repository → Exec W Str
  unfolding settings_named new_default_settings
  read_maven_settings_file vdb configured_repositories =
      settings_named vdb.namespace (own_settings vdb) (
        settings_named vdb.namespace shared_settings
          (lift (cluster.encode_settings (new_default_settings configured_repositories))))

-- The loop that both builds run over the repositories; the table's order is that of the iteration.
unfoldable pub repositories_of : Config → VirtualDatabase → List Repository
unfolding get_maven_repositories new_repository
repositories_of config vdb =
    map (λ kv. new_repository (repository_text config kv.0 kv.1))
      (get_maven_repositories config vdb)
