-- ===== src/Controller/Steps/Arrivals.antt =====
-- What the waiting phases wait for, in terms of what the cluster answers, and the actions that see it.
use teiid_operator.Prelude.{◌≡◌, refl, true, false, List, ◌∷◌, ◌++◌, All, ◌≤◌}
use teiid_operator.Result.{ok, is_ok}
use teiid_operator.Vdb.{
  Phase, create_cache_store, s2i_ready, builder_image, builder_image_finished, builder_image_failed,
  service_image, service_image_finished, service_image_failed, service_created, keystore_created,
  deploying, running, error,
}
use teiid_operator.Controller.Config.{Config, builder_image_target_name}
use teiid_operator.Controller.Cluster.{
  Cluster, Context, BuildRun, complete, Deployment, Condition, available, progressing, Secret,
}
use teiid_operator.Controller.BuilderImage.{
  get_builds, judge_builds, monitor_builder, builder_image_step, s2i_builder_image_handle,
}
use teiid_operator.Controller.ServiceImage.{
  judge_service_build, latest_build, no_build, monitor_service_image, service_image_step,
  service_image_handle,
}
use teiid_operator.Controller.Certificates.{
  keystore_secret_name, unless_stored, create_certificate_handle,
}
use teiid_operator.Controller.Pods.{is_deployment_in_ready_state, is_deployment_progressing}
use teiid_operator.Controller.Deployment.{
  find_dc, found_dc, judge_deployment, monitor_deployment, deployment_step, deployment_handle,
}
use teiid_operator.Controller.Steps.Verdicts.{IsFailure, IsWaiting, IsNewest, IsUnmet}

-- What the cluster answers a run in a phase, and the phase that it leads to. Of the builds of the base image
-- the last one of the list counts that is not waiting to run, of those of the service the newest one; a
-- deployment is ready by a condition, and stuck where it has conditions, but neither one of its being
-- available nor one of its progress, after four observed generations. The first two need no answer.
pub data Arrives {W : Type 0} (cluster : Cluster W) (s : Context W) : Phase → Phase → Type 0 where
  store_done : Arrives cluster s create_cache_store s2i_ready
  services_done : Arrives cluster s service_image_finished service_created
  base_image_built :
      (before : List BuildRun) (b : BuildRun) (after : List BuildRun)
      → (cluster.list_builds s.vdb.namespace builder_image_target_name s.world).0
        ≡ ok (before ++ b ∷ after)
      → b.phase ≡ complete
      → All IsWaiting after
      → Arrives cluster s builder_image builder_image_finished
  base_image_failed :
      (before : List BuildRun) (b : BuildRun) (after : List BuildRun)
      → (cluster.list_builds s.vdb.namespace builder_image_target_name s.world).0
        ≡ ok (before ++ b ∷ after)
      → IsFailure b.phase
      → All IsWaiting after
      → Arrives cluster s builder_image builder_image_failed
  image_built :
      (before : List BuildRun) (b : BuildRun) (after : List BuildRun)
      → (cluster.list_builds s.vdb.namespace s.vdb.name s.world).0 ≡ ok (before ++ b ∷ after)
      → IsNewest before b after
      → b.phase ≡ complete
      → Arrives cluster s service_image service_image_finished
  image_failed :
      (before : List BuildRun) (b : BuildRun) (after : List BuildRun)
      → (cluster.list_builds s.vdb.namespace s.vdb.name s.world).0 ≡ ok (before ++ b ∷ after)
      → IsNewest before b after
      → IsFailure b.phase
      → Arrives cluster s service_image service_image_failed
  keystore_there :
      (secret : Secret)
      → (cluster.get_secret s.vdb.namespace (keystore_secret_name s.vdb) s.world).0 ≡ ok secret
      → Arrives cluster s service_created keystore_created
  deployment_ready :
      (item : Deployment) (before : List Condition) (c : Condition) (after : List Condition)
      → (cluster.get_deployment s.vdb.namespace s.vdb.name s.world).0 ≡ ok item
      → item.conditions ≡ before ++ c ∷ after
      → c.type ≡ available
      → c.status ≡ true
      → Arrives cluster s deploying running
  deployment_stuck :
      (item : Deployment) (c : Condition) (conditions : List Condition)
      → (cluster.get_deployment s.vdb.namespace s.vdb.name s.world).0 ≡ ok item
      → item.conditions ≡ c ∷ conditions
      → All (IsUnmet available) item.conditions
      → All (IsUnmet progressing) item.conditions
      → 4 ≤ item.observed_generation
      → Arrives cluster s deploying error

module _ {W : Type 0} (cluster : Cluster W) (config : Config) (s : Context W) where
  pub base_judged :
      (builds : List BuildRun)
      → s.vdb.status.phase ≡ builder_image
      → (cluster.list_builds s.vdb.namespace builder_image_target_name s.world).0 ≡ ok builds
      → (is_ok (s2i_builder_image_handle cluster config s).0 ≡ true)
        × ((s2i_builder_image_handle cluster config s).1.vdb.status.phase
            ≡ judge_builds builder_image builds)
  unfolding s2i_builder_image_handle builder_image_step monitor_builder get_builds
  base_judged builds p e = rw (p, e) (refl, refl)

  pub image_judged :
      (builds : List BuildRun)
      → s.vdb.status.phase ≡ service_image
      → (cluster.list_builds s.vdb.namespace s.vdb.name s.world).0 ≡ ok builds
      → (is_ok (service_image_handle cluster config s).0 ≡ true)
        × ((service_image_handle cluster config s).1.vdb.status.phase
            ≡ judge_service_build service_image (latest_build builds 0 no_build).phase)
  unfolding service_image_handle service_image_step monitor_service_image
  image_judged builds p e = rw (p, e) (refl, refl)

  pub keystore_seen :
      (secret : Secret)
      → (cluster.get_secret s.vdb.namespace (keystore_secret_name s.vdb) s.world).0 ≡ ok secret
      → (is_ok (create_certificate_handle cluster s).0 ≡ true)
        × ((create_certificate_handle cluster s).1.vdb.status.phase ≡ keystore_created)
  unfolding create_certificate_handle unless_stored
  keystore_seen secret e = rw e (refl, refl)

  pub ready_seen :
      (item : Deployment)
      → s.vdb.status.phase ≡ deploying
      → (cluster.get_deployment s.vdb.namespace s.vdb.name s.world).0 ≡ ok item
      → is_deployment_in_ready_state item ≡ true
      → (is_ok (deployment_handle cluster config s).0 ≡ true)
        × ((deployment_handle cluster config s).1.vdb.status.phase ≡ running)
  unfolding deployment_handle deployment_step monitor_deployment found_dc find_dc judge_deployment
  ready_seen item p e r = rw (p, e, r) (refl, refl)

  pub stuck_seen :
      (item : Deployment)
      → s.vdb.status.phase ≡ deploying
      → (cluster.get_deployment s.vdb.namespace s.vdb.name s.world).0 ≡ ok item
      → is_deployment_in_ready_state item ≡ false
      → is_deployment_progressing item ≡ false
      → (is_ok (deployment_handle cluster config s).0 ≡ true)
        × ((deployment_handle cluster config s).1.vdb.status.phase ≡ error)
  unfolding deployment_handle deployment_step monitor_deployment found_dc find_dc judge_deployment
  stuck_seen item p e r g = rw (p, e, r, g) (refl, refl)
