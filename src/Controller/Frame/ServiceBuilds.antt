-- ===== src/Controller/Frame/ServiceBuilds.antt =====
-- The two builds as the steps run them: prepare_builder of Controller/BuilderImage.antt, and
-- build_service_image of Controller/ServiceImage.antt.
use teiid_operator.Prelude.{Bool, true, false, List, [], ◌&&◌, ◌==◌}
use teiid_operator.Text.{Str, text_Eq, codes}
use teiid_operator.Result.{Result, ok, err, not_found, conflict, panic, failed}
use teiid_operator.Exec.{attempt, ◌>>=◌}
use teiid_operator.Proxy.{getenv}
use teiid_operator.Vdb.{VirtualDatabase}
use teiid_operator.Controller.Config.{Config}
use teiid_operator.Controller.Cluster.{Cluster, BuildConfig, SourceType, binary}
use teiid_operator.Controller.Images.{ensure_image_stream, ensure_build_config}
use teiid_operator.Controller.Payload.{payload_of}
use teiid_operator.Controller.BaseImage.{build_bc}
use teiid_operator.Controller.BuilderImage.{start_builds, prepare_builder}
use teiid_operator.Controller.ServiceImage.{
  start_with_payload, trigger_from, trigger_service_build, rebuild, with_digest_env, new_service_bc,
  needs_build, build_service_image,
}
use teiid_operator.Controller.Frame.{Keeps, Frame, Keeps-bind, Keeps-continue, Keeps-if}
use teiid_operator.Controller.Frame.Stores.{ensure_image_stream-Keeps, ensure_build_config-Keeps}
use teiid_operator.Controller.Frame.Builds.{payload_of-Keeps, build_bc-Keeps, start_builds-Keeps}

module _ {W : Type 0} {P : W → Type 0} {cluster : Cluster W} (frame : Frame P cluster)
    (config : Config) where
  start_with_payload-Keeps :
      (bc build_config : BuildConfig) (files : List (Str × Str)) (r : Result (Unit {0}))
      → Keeps P (start_with_payload cluster config bc build_config files r)
  unfolding start_with_payload
  start_with_payload-Keeps bc build_config files (ok a) w p = frame.start_binary_build _ _ files w p
  start_with_payload-Keeps bc build_config files (err not_found) w p = p
  start_with_payload-Keeps bc build_config files (err conflict) w p = p
  start_with_payload-Keeps bc build_config files (err panic) w p = p
  start_with_payload-Keeps bc build_config files (err (failed t)) w p = p

  trigger_from-Keeps :
      (bc build_config : BuildConfig) (payload : List (Str × Str))
      → Keeps P (trigger_from cluster config bc build_config payload)
  unfolding trigger_from
  trigger_from-Keeps bc build_config payload = go build_config.source_type
    where
      go :
          (t : SourceType)
          → Keeps P (elim t [
            | binary ↦ do
              files ← cluster.tar payload
              r ←
                  attempt
                    (cluster.get_image_stream_tag build_config.namespace build_config.from_name)
              start_with_payload cluster config bc build_config files r
            | SourceType.other ↦ cluster.start_build build_config.namespace build_config.name
          ])
      go binary = Keeps-bind P (cluster.tar payload) _ (frame.tar payload) (λ files w p.
          start_with_payload-Keeps bc build_config files _ _
            (frame.get_image_stream_tag build_config.namespace build_config.from_name w p))
      go SourceType.other = frame.start_build build_config.namespace build_config.name

  trigger_service_build-Keeps :
      (bc : BuildConfig) (payload : List (Str × Str))
      → Keeps P (trigger_service_build cluster config bc payload)
  unfolding trigger_service_build
  trigger_service_build-Keeps bc payload =
      Keeps-bind P (cluster.get_build_config bc.namespace bc.name) _
        (frame.get_build_config bc.namespace bc.name)
        (λ build_config. trigger_from-Keeps bc build_config payload)

  rebuild-Keeps :
      (vdb : VirtualDatabase) (bc : BuildConfig) (b : Bool)
      → Keeps P (rebuild cluster config vdb bc b)
  unfolding rebuild
  rebuild-Keeps vdb bc false = λ w p. p
  rebuild-Keeps vdb bc true =
      Keeps-bind P (cluster.update_build_config (with_digest_env vdb bc)) _
        (frame.update_build_config (with_digest_env vdb bc))
        (λ a.
          Keeps-bind P (payload_of cluster config vdb) _ (payload_of-Keeps frame config vdb)
            (λ payload. trigger_service_build-Keeps (with_digest_env vdb bc) payload))

  pub build_service_image-Keeps :
      (vdb : VirtualDatabase) → Keeps P (build_service_image cluster config vdb)
  unfolding build_service_image
  build_service_image-Keeps vdb =
      Keeps-if P (vdb.spec.build.source.ddl == [] && vdb.spec.build.source.maven == []) _ _
        (λ w p. p)
        (Keeps-bind P (ensure_image_stream cluster vdb.name vdb.namespace) _
          (ensure_image_stream-Keeps frame vdb.name vdb.namespace)
          (λ a w p.
            let read : Result BuildConfig × W = cluster.get_build_config vdb.namespace vdb.name w in
            Keeps-bind P (ensure_build_config cluster (new_service_bc cluster config vdb) read.0) _
              (ensure_build_config-Keeps frame (new_service_bc cluster config vdb) read.0)
              (λ bc w p.
                Keeps-continue P (needs_build vdb bc) (rebuild cluster config vdb bc) w p
                  (λ needed. rebuild-Keeps vdb bc needed w p))
              read.1 (frame.get_build_config vdb.namespace vdb.name w p)))

  pub prepare_builder-Keeps : (vdb : VirtualDatabase) → Keeps P (prepare_builder cluster config vdb)
  unfolding prepare_builder
  prepare_builder-Keeps vdb w p =
      Keeps-bind P (build_bc cluster config vdb) _ (build_bc-Keeps frame config vdb)
        (λ bc.
          Keeps-bind P (ensure_image_stream cluster bc.name vdb.namespace) _
            (ensure_image_stream-Keeps frame bc.name vdb.namespace)
            (λ a.
              Keeps-bind P (cluster.get_image_stream_tag bc.from_namespace bc.from_name) _
                (frame.get_image_stream_tag bc.from_namespace bc.from_name)
                (λ b w p.
                  let read : Result BuildConfig × W =
                    cluster.get_build_config bc.namespace bc.name w in
                  Keeps-bind P (ensure_build_config cluster bc read.0)
                    (start_builds cluster config vdb) (ensure_build_config-Keeps frame bc read.0)
                    (start_builds-Keeps frame config vdb) read.1
                    (frame.get_build_config bc.namespace bc.name w p))))
        _
        (frame.get_deployment (getenv cluster.environ (codes "WATCH_NAMESPACE"))
          (getenv cluster.environ (codes "OPERATOR_NAME")) w p)
