-- ===== src/Controller/ServiceImage.antt =====
-- The image of a database's service, pkg/controller/virtualdatabase/service_image.go.
pub mod Latest
use teiid_operator.Prelude.{
  ℕ, Bool, true, false, not, ◌||◌, ◌&&◌, none, some, List, [], ◌∷◌, ◌++◌, ◌==◌, nat_Eq,
  if◌then◌else◌, ltb,
}
use teiid_operator.Text.{Str, text_Eq, codes}
use teiid_operator.Result.{Err, Result, ok, err, not_found, failed as failed_with, panic}
use teiid_operator.Exec.{Exec, pure, raise, lift, gets, attempt, guarded, ◌>>=◌, ◌>>◌}
use teiid_operator.Envvar.{EnvVar, get, set_val, clone}
use teiid_operator.Proxy.{http_settings}
use teiid_operator.Vdb.{
  VirtualDatabase, Phase, builder_image_finished, service_image, service_image_finished,
  service_image_failed,
}
use teiid_operator.Controller.Config.{Config, builder_image_target_name}
use teiid_operator.Controller.Cluster.{
  Cluster, Context, BuildConfig, BuildRun, BuildPhase, complete, failed, error, cancelled, running,
  other, SourceType, binary, call,
}
use teiid_operator.Controller.Environments.{java_properties}
use teiid_operator.Controller.Images.{
  default_build_options, ensure_image_stream, ensure_build_config,
}
use teiid_operator.Controller.Payload.{payload_of}
use teiid_operator.Controller.Initialize.{with_failure}
use teiid_operator.Controller.Updater.Decimal.{atoi_or_zero}
use teiid_operator.Controller.Actions.{Action, service_image_can_handle, with_phase, edit}

abbrev pub no_source : Str
no_source =
    codes
      "Only Git and DDL Content based, Maven based VDBs are allowed, none of these types are defined"

abbrev pub no_build : BuildRun
no_build = record { phase = other; number = [] }

-- The first of the builds with the greatest number, above the one given.
unfoldable pub latest_build : List BuildRun → ℕ → BuildRun → BuildRun
unfolding atoi_or_zero
latest_build [] max_build_number build = build
latest_build (b ∷ builds) max_build_number build =
    let next = latest_build builds (atoi_or_zero b.number) b in
    let same = latest_build builds max_build_number build in
    if ltb max_build_number (atoi_or_zero b.number) then next else same

-- The phase that the build's phase leads to, from the one before.
unfoldable pub judge_service_build : Phase → BuildPhase → Phase
judge_service_build p complete = service_image_finished
judge_service_build p error = service_image_failed
judge_service_build p failed = service_image_failed
judge_service_build p cancelled = service_image_failed
judge_service_build p running = service_image
judge_service_build p other = p

-- Is there a build to start? A configuration without a digest is read through a nil pointer, unless it
-- has started no build.
unfoldable pub needs_build : VirtualDatabase → BuildConfig → Result Bool
unfolding get
needs_build vdb bc = if bc.last_version == 0 then ok true else elim (get bc.env (codes "DIGEST")) [
  | none ↦ err panic
  | some digest ↦ ok (not (digest.value == vdb.status.digest))
]

-- The configuration that a build is started from, with the digest written into it.
unfoldable pub with_digest_env : VirtualDatabase → BuildConfig → BuildConfig
unfolding set_val
with_digest_env vdb bc = record bc { env = set_val bc.env (codes "DIGEST") vdb.status.digest }

module _ {W : Type 0} (cluster : Cluster W) (config : Config) where
  unfoldable pub service_envs : VirtualDatabase → List EnvVar
  unfolding clone http_settings java_properties default_build_options set_val
  service_envs vdb =
      let (envs, properties) = http_settings cluster.environ (clone vdb.spec.build.env) in
      set_val
        (set_val (set_val envs (codes "DEPLOYMENTS_DIR") (codes "/deployments"))
          (codes "MAVEN_ARGS")
          (codes "clean package " ++ java_properties properties ++ default_build_options))
        (codes "DIGEST") vdb.status.digest

  unfoldable pub new_service_bc : VirtualDatabase → BuildConfig
  unfolding service_envs
  new_service_bc vdb = record {
    name = vdb.name;
    namespace = vdb.namespace;
    app = vdb.name;
    output_to = vdb.name ++ codes ":latest";
    source_type = binary;
    incremental = false;
    env = service_envs vdb;
    from_name = builder_image_target_name ++ codes ":latest";
    from_namespace = [];
    last_version = 0;
  }

  -- A base image that is not found yet starts no build, without an error.
  unfoldable pub start_with_payload :
      BuildConfig → BuildConfig → List (Str × Str) → Result (Unit {0}) → Exec W (Unit {0})
  start_with_payload bc build_config files (ok _) =
      cluster.start_binary_build bc.namespace build_config.name files
  start_with_payload bc build_config files (err not_found) = pure tt
  start_with_payload bc build_config files (err e) = raise e

  unfoldable pub trigger_from : BuildConfig → BuildConfig → List (Str × Str) → Exec W (Unit {0})
  unfolding start_with_payload
  trigger_from bc build_config payload = elim build_config.source_type [
    | binary ↦ do
      files ← cluster.tar payload
      r ← attempt (cluster.get_image_stream_tag build_config.namespace build_config.from_name)
      start_with_payload bc build_config files r
    | SourceType.other ↦ cluster.start_build build_config.namespace build_config.name
  ]

  unfoldable pub trigger_service_build : BuildConfig → List (Str × Str) → Exec W (Unit {0})
  unfolding trigger_from
  trigger_service_build bc payload = do
    build_config ← cluster.get_build_config bc.namespace bc.name
    trigger_from bc build_config payload

  unfoldable pub rebuild : VirtualDatabase → BuildConfig → Bool → Exec W (Unit {0})
  unfolding with_digest_env payload_of trigger_service_build
  rebuild vdb bc false = pure tt
  rebuild vdb bc true = do
    let bc' = with_digest_env vdb bc
    cluster.update_build_config bc'
    payload ← payload_of cluster config vdb
    trigger_service_build bc' payload

  unfoldable pub build_service_image : VirtualDatabase → Exec W (Unit {0})
  unfolding ensure_image_stream ensure_build_config new_service_bc needs_build rebuild
  build_service_image vdb =
      if vdb.spec.build.source.ddl == [] && vdb.spec.build.source.maven == []
      then raise (failed_with no_source)
      else (do
        ensure_image_stream cluster vdb.name vdb.namespace
        r ← attempt (cluster.get_build_config vdb.namespace vdb.name)
        bc ← ensure_build_config cluster (new_service_bc vdb) r
        needed ← lift (needs_build vdb bc)
        rebuild vdb bc needed)

  -- `err.Error()`
  abbrev pub error_message : Err → Str
  error_message (failed_with text) = text
  error_message e = cluster.error_text e

  unfoldable pub note_build : Result (Unit {0}) → Exec (Context W) (Unit {0})
  note_build (ok _) = pure tt
  note_build (err e) =
      edit (λ v. with_failure (error_message e) (with_phase Phase.error v)) >> raise e

  unfoldable pub start_service_build : Exec (Context W) (Unit {0})
  unfolding build_service_image note_build
  start_service_build = do
    edit (with_phase service_image)
    vdb ← gets (λ s. s.vdb)
    r ← guarded (call (build_service_image vdb))
    note_build r

  unfoldable pub monitor_service_image : Exec (Context W) (Unit {0})
  unfolding latest_build judge_service_build
  monitor_service_image = do
    vdb ← gets (λ s. s.vdb)
    builds ← call (cluster.list_builds vdb.namespace vdb.name)
    edit (with_phase (judge_service_build vdb.status.phase (latest_build builds 0 no_build).phase))

  unfoldable pub service_image_step : Phase → Exec (Context W) (Unit {0})
  unfolding start_service_build monitor_service_image
  service_image_step builder_image_finished = start_service_build
  service_image_step service_image = monitor_service_image
  service_image_step _ = pure tt

  unfoldable pub service_image_handle : Exec (Context W) (Unit {0})
  unfolding service_image_step
  service_image_handle = do vdb ← gets (λ s. s.vdb); service_image_step vdb.status.phase

  unfoldable pub service_image_action : Action W
  service_image_action = record {
    can_handle = λ vdb. service_image_can_handle vdb.status.phase;
    handle = service_image_handle;
  }
