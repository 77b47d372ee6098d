-- ===== src/Controller/Steps/Waits.antt =====
-- The runs that end the wait of a resource.
use teiid_operator.Prelude.{◌≡◌, ◌≢◌, ◌∙◌, ap, true, [], ◌∷◌, ◌++◌, arith}
use teiid_operator.Vdb.{
  Phase, create_cache_store, s2i_ready, builder_image, builder_image_finished, builder_image_failed,
  service_image, service_image_finished, service_image_failed, service_created, keystore_created,
  deploying, running, error,
}
use teiid_operator.Controller.Config.{Config}
use teiid_operator.Controller.Cluster.{Cluster, Context}
use teiid_operator.Controller.Reconcile.{Requeue, done, run_actions}
use teiid_operator.Controller.Initialize.{initialize_action}
use teiid_operator.Controller.CacheStore.{cache_store_action}
use teiid_operator.Controller.BuilderImage.{s2i_builder_image_handle, s2i_builder_image_action}
use teiid_operator.Controller.ServiceImage.{service_image_handle, service_image_action}
use teiid_operator.Controller.Services.Handle.{create_service_action}
use teiid_operator.Controller.Certificates.{create_certificate_handle, create_certificate_action}
use teiid_operator.Controller.Deployment.{deployment_handle, deployment_action}
use teiid_operator.Controller.Steps.{build_steps}
use teiid_operator.Controller.Steps.Ahead.{run_goes}
use teiid_operator.Controller.Steps.Verdicts.{
  judge_builds-complete, judge_builds-IsFailure, judge_service_build-complete,
  judge_service_build-IsFailure, latest_build-IsNewest, is_deployment_in_ready_state-met,
  is_deployment_in_ready_state-unmet, is_deployment_progressing-unmet,
}
use teiid_operator.Controller.CacheStore.Outcome.{cache_store_handle-Stored}
use teiid_operator.Controller.Services.Outcome.{create_service_handle-Served}
use teiid_operator.Controller.Reconcile.Accepted.{Accepts}
use teiid_operator.Result.{Result, ok, is_ok}
use teiid_operator.Controller.ServiceImage.{judge_service_build, no_build}
use teiid_operator.Controller.Steps.Arrivals.{
  Arrives, store_done, services_done, base_image_built, base_image_failed, image_built,
  image_failed, keystore_there, deployment_ready, deployment_stuck, base_judged, image_judged,
  keystore_seen, ready_seen, stuck_seen,
}

-- A phase that a judgement gives.
judged_as : {X : Type 0} {p q r : Phase} → X × (p ≡ q) → q ≡ r → X × (p ≡ r)
judged_as (x, e) f = (x, e ∙ f)

module _ {W : Type 0} (cluster : Cluster W) (config : Config) (accepts : Accepts cluster)
    (s : Context W) where
  abbrev Reaches : Phase → Type 0
  Reaches q =
      let end : Result Requeue × Context W =
        run_actions cluster s.vdb (build_steps cluster config) s in
      (end.0 ≡ ok done) × (end.1.vdb.status.phase ≡ q)

  store_goes : s.vdb.status.phase ≡ create_cache_store → Reaches s2i_ready
  unfolding build_steps initialize_action cache_store_action
  store_goes h =
      let stored = cache_store_handle-Stored cluster s in
      run_goes cluster accepts s (initialize_action cluster ∷ []) _ (cache_store_action cluster)
        create_cache_store s2i_ready (ground (arith, h), tt) (ground (arith, h)) h
        (stored.0, stored.1.1) (λ e. ground (arith, e))

  services_go : s.vdb.status.phase ≡ service_image_finished → Reaches service_created
  unfolding build_steps initialize_action cache_store_action s2i_builder_image_action
      service_image_action create_service_action
  services_go h =
      let served = create_service_handle-Served cluster s in
      run_goes cluster accepts s
        (initialize_action cluster
          ∷ cache_store_action cluster
          ∷ s2i_builder_image_action cluster config
          ∷ service_image_action cluster config
          ∷ [])
        _ (create_service_action cluster) service_image_finished service_created
        (ground (arith, h), (ground (arith, h), (ground (arith, h), (ground (arith, h), tt))))
        (ground (arith, h)) h (served.0, served.1.1) (λ e. ground (arith, e))

  base_goes :
      (q : Phase)
      → s.vdb.status.phase ≡ builder_image
      → (is_ok (s2i_builder_image_handle cluster config s).0 ≡ true)
        × ((s2i_builder_image_handle cluster config s).1.vdb.status.phase ≡ q)
      → builder_image ≢ q
      → Reaches q
  unfolding build_steps initialize_action cache_store_action s2i_builder_image_action
  base_goes q h f d =
      run_goes cluster accepts s (initialize_action cluster ∷ cache_store_action cluster ∷ []) _
        (s2i_builder_image_action cluster config) builder_image q
        (ground (arith, h), (ground (arith, h), tt)) (ground (arith, h)) h f d

  image_goes :
      (q : Phase)
      → s.vdb.status.phase ≡ service_image
      → (is_ok (service_image_handle cluster config s).0 ≡ true)
        × ((service_image_handle cluster config s).1.vdb.status.phase ≡ q)
      → service_image ≢ q
      → Reaches q
  unfolding build_steps initialize_action cache_store_action s2i_builder_image_action
      service_image_action
  image_goes q h f d =
      run_goes cluster accepts s
        (initialize_action cluster
          ∷ cache_store_action cluster
          ∷ s2i_builder_image_action cluster config
          ∷ [])
        _ (service_image_action cluster config) service_image q
        (ground (arith, h), (ground (arith, h), (ground (arith, h), tt))) (ground (arith, h)) h f d

  keystore_goes :
      (q : Phase)
      → s.vdb.status.phase ≡ service_created
      → (is_ok (create_certificate_handle cluster s).0 ≡ true)
        × ((create_certificate_handle cluster s).1.vdb.status.phase ≡ q)
      → service_created ≢ q
      → Reaches q
  unfolding build_steps initialize_action cache_store_action s2i_builder_image_action
      service_image_action create_service_action create_certificate_action
  keystore_goes q h f d =
      run_goes cluster accepts s
        (initialize_action cluster
          ∷ cache_store_action cluster
          ∷ s2i_builder_image_action cluster config
          ∷ service_image_action cluster config
          ∷ create_service_action cluster
          ∷ [])
        _ (create_certificate_action cluster) service_created q
        (
          ground (arith, h),
          (ground (arith, h), (ground (arith, h), (ground (arith, h), (ground (arith, h), tt)))),
        )
        (ground (arith, h)) h f d

  deployment_goes :
      (q : Phase)
      → s.vdb.status.phase ≡ deploying
      → (is_ok (deployment_handle cluster config s).0 ≡ true)
        × ((deployment_handle cluster config s).1.vdb.status.phase ≡ q)
      → deploying ≢ q
      → Reaches q
  unfolding build_steps initialize_action cache_store_action s2i_builder_image_action
      service_image_action create_service_action create_certificate_action deployment_action
  deployment_goes q h f d =
      run_goes cluster accepts s
        (initialize_action cluster
          ∷ cache_store_action cluster
          ∷ s2i_builder_image_action cluster config
          ∷ service_image_action cluster config
          ∷ create_service_action cluster
          ∷ create_certificate_action cluster
          ∷ [])
        _ (deployment_action cluster config) deploying q
        (
          ground (arith, h),
          (
            ground (arith, h),
            (ground (arith, h), (ground (arith, h), (ground (arith, h), (ground (arith, h), tt)))),
          ),
        )
        (ground (arith, h)) h f d

  -- The result of the run over the actions, and the phase of the resource in memory after it.
  pub build_steps-Arrives :
      (p q : Phase) → s.vdb.status.phase ≡ p → Arrives cluster s p q → Reaches q
  build_steps-Arrives p q h store_done = store_goes h
  build_steps-Arrives p q h services_done = services_go h
  build_steps-Arrives p q h (base_image_built before b after e c k) =
      base_goes builder_image_finished h
        (judged_as (base_judged cluster config s (before ++ b ∷ after) h e)
          (judge_builds-complete builder_image before b after c k))
        (λ x. ground (arith, x))
  build_steps-Arrives p q h (base_image_failed before b after e c k) =
      base_goes builder_image_failed h
        (judged_as (base_judged cluster config s (before ++ b ∷ after) h e)
          (judge_builds-IsFailure builder_image before b after c k))
        (λ x. ground (arith, x))
  build_steps-Arrives p q h (image_built before b after e n c) =
      image_goes service_image_finished h
        (judged_as (image_judged cluster config s (before ++ b ∷ after) h e) (
          ap (λ x. judge_service_build service_image x.phase)
            (latest_build-IsNewest before b after no_build n)
          ∙ judge_service_build-complete service_image b.phase c))
        (λ x. ground (arith, x))
  build_steps-Arrives p q h (image_failed before b after e n c) =
      image_goes service_image_failed h
        (judged_as (image_judged cluster config s (before ++ b ∷ after) h e) (
          ap (λ x. judge_service_build service_image x.phase)
            (latest_build-IsNewest before b after no_build n)
          ∙ judge_service_build-IsFailure service_image b.phase c))
        (λ x. ground (arith, x))
  build_steps-Arrives p q h (keystore_there secret e) =
      keystore_goes keystore_created h (keystore_seen cluster config s secret e)
        (λ x. ground (arith, x))
  build_steps-Arrives p q h (deployment_ready item before c after e k t r) =
      deployment_goes running h
        (ready_seen cluster config s item h e
          (is_deployment_in_ready_state-met item before c after k t r))
        (λ x. ground (arith, x))
  build_steps-Arrives p q h (deployment_stuck item c cs e k a g n) =
      deployment_goes error h
        (stuck_seen cluster config s item h e (is_deployment_in_ready_state-unmet item a)
          (is_deployment_progressing-unmet item c cs k g n))
        (λ x. ground (arith, x))
