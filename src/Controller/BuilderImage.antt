-- ===== src/Controller/BuilderImage.antt =====
-- The step for the builder image, pkg/controller/virtualdatabase/s2i_builder_image.go.
use teiid_operator.Prelude.{Bool, true, false, List, [], ◌∷◌, ◌==◌, nat_Eq, if◌then◌else◌}
use teiid_operator.Text.{codes}
use teiid_operator.Exec.{Exec, pure, gets, attempt, ◌>>=◌, ◌>>◌}
use teiid_operator.Proxy.{getenv}
use teiid_operator.Vdb.{
  VirtualDatabase, Phase, s2i_ready, builder_image, builder_image_finished, builder_image_failed,
}
use teiid_operator.Controller.Config.{Config, builder_image_target_name, get_maven_repositories}
use teiid_operator.Controller.Cluster.{
  Cluster, Context, BuildConfig, BuildRun, BuildPhase, complete, failed, error, cancelled, running,
  other, call,
}
use teiid_operator.Controller.Images.{ensure_image_stream, ensure_build_config}
use teiid_operator.Controller.Actions.{Action, s2i_builder_image_can_handle, with_phase, edit}
use teiid_operator.Controller.BaseImage.{build_bc, trigger_base_build}

-- Error, Failed or Cancelled
unfoldable pub has_failed : BuildPhase → Bool
has_failed error = true
has_failed failed = true
has_failed cancelled = true
has_failed _ = false

-- What one build says about the phase.
unfoldable pub judge_build : Phase → BuildPhase → Phase
judge_build p complete = builder_image_finished
judge_build p error = builder_image_failed
judge_build p failed = builder_image_failed
judge_build p cancelled = builder_image_failed
judge_build p running = builder_image
judge_build p other = p

unfoldable pub judge_builds : Phase → List BuildRun → Phase
unfolding judge_build
judge_builds p [] = p
judge_builds p (b ∷ builds) = judge_builds (judge_build p b.phase) builds

module _ {W : Type 0} (cluster : Cluster W) (config : Config) where
  unfoldable pub get_builds : VirtualDatabase → Exec W (List BuildRun)
  get_builds vdb = cluster.list_builds vdb.namespace builder_image_target_name

  -- A build is started for each build that has failed.
  unfoldable pub retry_builds : VirtualDatabase → BuildConfig → List BuildRun → Exec W (Unit {0})
  unfolding has_failed trigger_base_build get_maven_repositories
  retry_builds vdb bc [] = pure tt
  retry_builds vdb bc (b ∷ builds) =
      (if has_failed b.phase
        then trigger_base_build cluster config bc (get_maven_repositories config vdb)
        else pure tt)
      >>= λ _. retry_builds vdb bc builds

  unfoldable pub start_builds : VirtualDatabase → BuildConfig → Exec W (Unit {0})
  unfolding trigger_base_build get_maven_repositories get_builds retry_builds
  start_builds vdb bc =
      if bc.last_version == 0
      then trigger_base_build cluster config bc (get_maven_repositories config vdb)
      else get_builds vdb >>= retry_builds vdb bc

  -- The operator's own deployment is read for the owner only, and may be missing.
  unfoldable pub prepare_builder : VirtualDatabase → Exec W (Unit {0})
  unfolding build_bc ensure_image_stream ensure_build_config start_builds
  prepare_builder vdb = do
    attempt (
        cluster.get_deployment (getenv cluster.environ (codes "WATCH_NAMESPACE"))
          (getenv cluster.environ (codes "OPERATOR_NAME")))
    build_config ← build_bc cluster config vdb
    ensure_image_stream cluster build_config.name vdb.namespace
    cluster.get_image_stream_tag build_config.from_namespace build_config.from_name
    r ← attempt (cluster.get_build_config build_config.namespace build_config.name)
    bc ← ensure_build_config cluster build_config r
    start_builds vdb bc

  unfoldable pub start_builder : Exec (Context W) (Unit {0})
  unfolding prepare_builder
  start_builder = do
    vdb ← gets (λ s. s.vdb)
    call (prepare_builder vdb)
    edit (with_phase builder_image)

  unfoldable pub monitor_builder : Exec (Context W) (Unit {0})
  unfolding get_builds judge_builds
  monitor_builder = do
    vdb ← gets (λ s. s.vdb)
    builds ← call (get_builds vdb)
    edit (with_phase (judge_builds vdb.status.phase builds))

  unfoldable pub builder_image_step : Phase → Exec (Context W) (Unit {0})
  unfolding start_builder monitor_builder
  builder_image_step s2i_ready = start_builder
  builder_image_step builder_image = monitor_builder
  builder_image_step _ = pure tt

  unfoldable pub s2i_builder_image_handle : Exec (Context W) (Unit {0})
  unfolding builder_image_step
  s2i_builder_image_handle = do vdb ← gets (λ s. s.vdb); builder_image_step vdb.status.phase

  unfoldable pub s2i_builder_image_action : Action W
  s2i_builder_image_action = record {
    can_handle = λ vdb. s2i_builder_image_can_handle vdb.status.phase;
    handle = s2i_builder_image_handle;
  }
