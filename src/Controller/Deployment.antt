-- ===== src/Controller/Deployment.antt =====
-- The deployment, pkg/controller/virtualdatabase/deployment.go.

use teiid_operator.Prelude.{
  Bool, true, false, not, some, List, [], ◌∷◌, ◌==◌, nat_Eq, if◌then◌else◌, for_each,
}
use teiid_operator.Text.{Str, text_Eq, codes}
use teiid_operator.Table.{put}
use teiid_operator.Result.{Result, ok, err}
use teiid_operator.Exec.{Exec, pure, lift, gets, attempt, ◌>>=◌, ◌>>◌}
use teiid_operator.Envvar.{EnvVar}
use teiid_operator.Proxy.{http_settings}
use teiid_operator.Vdb.{
  VirtualDatabase, Phase, keystore_created, deploying, running, error as phase_error,
}
use teiid_operator.Controller.Config.{Config, get_computing_resources, keystore_location}
use teiid_operator.Controller.Cluster.{
  Cluster, Context, Deployment, Container, BuildConfig, Probe, call,
}
use teiid_operator.Controller.Certificates.{keystore_secret_name}
use teiid_operator.Controller.Digest.{compute_config_digest}
use teiid_operator.Controller.Environments.{deployment_environments, traces}
use teiid_operator.Controller.Initialize.{with_config_digest}
use teiid_operator.Controller.Actions.{Action, deployment_can_handle, with_phase, edit}
use teiid_operator.Controller.Pods.{
  annotate, adjust_env, adjust_replicas, config_hash, container_ports, first_container,
  is_deployment_in_ready_state, is_deployment_progressing, match_labels_of, no_deployment,
  read_through, with_first,
}

abbrev pub keystore_volume : Str
keystore_volume = codes "keystore"

abbrev pub health_probe : Probe
health_probe = record {
  path = codes "/actuator/health";
  port = 8080;
  initial_delay = 15;
  timeout = 5;
  period = 20;
  success_threshold = 1;
  failure_threshold = 5;
}

module _ {W : Type 0} (cluster : Cluster W) (config : Config) where
  unfoldable pub find_dc : VirtualDatabase → Exec W Deployment
  find_dc vdb = cluster.get_deployment vdb.namespace vdb.name

  -- `item, _ := findDC(vdb, r)`
  unfoldable pub found_dc : VirtualDatabase → Exec W Deployment
  unfolding find_dc
  found_dc vdb = do
    r ← attempt (find_dc vdb)
    pure (elim r [ ok item ↦ item | err _ ↦ no_deployment ])

  -- The labels of the selector, and those of the configuration.
  unfoldable pub deployment_labels : VirtualDatabase → List (Str × Str)
  unfolding match_labels_of put
  deployment_labels vdb =
      for_each (λ m kv. put m kv.0 kv.1) (match_labels_of vdb.name) config.labels

  unfoldable pub new_deployment : VirtualDatabase → BuildConfig → List EnvVar → Bool → Deployment
  unfolding match_labels_of container_ports deployment_labels
  new_deployment vdb service_bc envs jaeger = record {
    name = vdb.name;
    namespace = vdb.namespace;
    labels = deployment_labels vdb;
    annotations =
        if jaeger then (codes "sidecar.jaegertracing.io/inject", vdb.spec.jaeger) ∷ [] else [];
    replicas = vdb.spec.replicas;
    match_labels = match_labels_of vdb.name;
    strategy = codes "RollingUpdate";
    template_name = vdb.name;
    template_labels = deployment_labels vdb;
    template_annotations = some ((config_hash, vdb.status.config_digest) ∷ []);
    containers =
        record {
          name = vdb.name;
          env = envs;
          image = service_bc.output_to;
          image_pull_policy = codes "Always";
          ports = container_ports false;
          resources = get_computing_resources vdb;
          liveness_probe = some health_probe;
          readiness_probe = some health_probe;
          working_dir = codes "/deployments";
          volume_mounts =
              record { name = keystore_volume; read_only = true; mount_path = keystore_location }
              ∷ [];
        }
        ∷ [];
    volumes = record { name = keystore_volume; secret_name = keystore_secret_name vdb } ∷ [];
    conditions = [];
    observed_generation = 0;
  }

  unfoldable pub build_deployment : VirtualDatabase → BuildConfig → Exec W Deployment
  unfolding deployment_environments http_settings traces new_deployment
  build_deployment vdb service_bc = do
    envs ← deployment_environments cluster config vdb
    let passed = (http_settings cluster.environ envs).0
    jaeger ← traces cluster vdb
    cluster.set_controller_reference vdb.name
    pure (new_deployment vdb service_bc passed jaeger)

  unfoldable pub update_image : Deployment → Container → BuildConfig → Exec W (Unit {0})
  unfolding with_first
  update_image existing c bc =
      if c.image == bc.output_to
      then pure tt
      else lift (with_first (λ x. record x { image = bc.output_to }) existing)
        >>= cluster.update_deployment

  unfoldable pub deploy : VirtualDatabase → BuildConfig → Result Deployment → Exec W (Unit {0})
  unfolding build_deployment update_image first_container
  deploy vdb bc (ok existing) = lift (first_container existing) >>= λ c. update_image existing c bc
  deploy vdb bc (err _) = build_deployment vdb bc >>= cluster.create_deployment

  -- From the phase after the key stores: create the deployment, or put the image of the build into it.
  unfoldable pub run_deployment : Exec (Context W) (Unit {0})
  unfolding find_dc deploy
  run_deployment = do
    vdb ← gets (λ s. s.vdb)
    bc ← call (cluster.get_build_config vdb.namespace vdb.name)
    r ← attempt (call (find_dc vdb))
    call (deploy vdb bc r)
    edit (with_phase deploying)

  unfoldable pub judge_deployment : Deployment → Exec (Context W) (Unit {0})
  unfolding is_deployment_in_ready_state is_deployment_progressing
  judge_deployment item =
      if is_deployment_in_ready_state item
      then edit (with_phase running)
      else if not (is_deployment_progressing item)
      then edit (with_phase phase_error)
      else pure tt

  unfoldable pub monitor_deployment : Exec (Context W) (Unit {0})
  unfolding found_dc judge_deployment
  monitor_deployment = do vdb ← gets (λ s. s.vdb); item ← call (found_dc vdb); judge_deployment item

  -- Where replicas and environment are right, a digest of the configuration that is new is stored.
  unfoldable pub store_config_digest : Deployment → Str → Exec (Context W) (Unit {0})
  unfolding annotate
  store_config_digest item digest = do
    vdb ← gets (λ s. s.vdb)
    if digest == vdb.status.config_digest then pure tt else (do
      edit (with_config_digest digest)
      annotated ← lift (annotate digest item)
      call (cluster.update_deployment annotated))

  unfoldable pub store_adjusted : Deployment × Bool → Exec (Context W) (Unit {0})
  unfolding compute_config_digest store_config_digest
  store_adjusted (item, true) = call (cluster.update_deployment item)
  store_adjusted (item, false) = do
    vdb ← gets (λ s. s.vdb)
    digest ← call (compute_config_digest cluster vdb)
    store_config_digest item digest

  unfoldable pub ensure_replicas : Deployment → Exec (Context W) (Unit {0})
  unfolding deployment_environments read_through first_container adjust_replicas adjust_env
      store_adjusted
  ensure_replicas item = do
    vdb ← gets (λ s. s.vdb)
    envs ← call (deployment_environments cluster config vdb)
    wanted ← lift (read_through vdb.spec.replicas)
    found ← lift (read_through item.replicas)
    c ← lift (first_container item)
    adjusted ← lift (adjust_env envs c (adjust_replicas wanted found item))
    store_adjusted adjusted

  unfoldable pub tend_deployment : Exec (Context W) (Unit {0})
  unfolding found_dc is_deployment_in_ready_state ensure_replicas
  tend_deployment = do
    vdb ← gets (λ s. s.vdb)
    item ← call (found_dc vdb)
    if is_deployment_in_ready_state item then ensure_replicas item else pure tt

  unfoldable pub deployment_step : Phase → Exec (Context W) (Unit {0})
  unfolding run_deployment monitor_deployment tend_deployment
  deployment_step keystore_created = run_deployment
  deployment_step deploying = monitor_deployment
  deployment_step running = tend_deployment
  deployment_step _ = pure tt

  unfoldable pub deployment_handle : Exec (Context W) (Unit {0})
  unfolding deployment_step
  deployment_handle = do vdb ← gets (λ s. s.vdb); deployment_step vdb.status.phase

  unfoldable pub deployment_action : Action W
  deployment_action = record {
    can_handle = λ vdb. deployment_can_handle vdb.status.phase;
    handle = deployment_handle;
  }
