-- ===== src/Controller/Transitions/Late.antt =====
-- The steps of create-service.go, create-certificates.go, deployment.go and prometheus-monitor.go in the
-- diagram of the phases.
use teiid_operator.Prelude.{◌≡◌, refl, inl, inr, ap, Bool, true, false, not, ◌==◌, if◌then◌else◌}
use teiid_operator.Text.{Str, text_Eq}
use teiid_operator.Result.{Result, ok, err}
use teiid_operator.Exec.{pure}
use teiid_operator.Vdb.{
  VirtualDatabase, Phase, initial, create_cache_store, s2i_ready, builder_image,
  builder_image_finished, builder_image_failed, service_image, service_image_finished,
  service_image_failed, service_created, keystore_created, deploying, running, error, deleting,
}
use teiid_operator.Controller.Config.{Config}
use teiid_operator.Controller.Cluster.{Cluster, Context, Deployment}
use teiid_operator.Controller.Digest.{compute_config_digest}
use teiid_operator.Controller.Services.Handle.{create_service_handle}
use teiid_operator.Controller.Services.Outcome.{Served, create_service_handle-Served}
use teiid_operator.Controller.Certificates.{create_certificate_handle}
use teiid_operator.Controller.Certificates.Outcome.{
  AllOrNothing, create_certificate_handle-AllOrNothing,
}
use teiid_operator.Controller.Environments.{deployment_environments}
use teiid_operator.Controller.Pods.{
  annotate, is_deployment_in_ready_state, is_deployment_progressing, read_through, first_container,
  adjust_env, adjust_replicas,
}
use teiid_operator.Controller.Initialize.{with_config_digest}
use teiid_operator.Controller.Deployment.{
  find_dc, found_dc, deploy, run_deployment, judge_deployment, monitor_deployment,
  store_config_digest, store_adjusted, ensure_replicas, tend_deployment, deployment_step,
  deployment_handle,
}
use teiid_operator.Controller.Monitor.{prometheus_monitor_handle}
use teiid_operator.Controller.Transitions.{
  Advance, still, along, served, certified, deployed, ready, deployment_failed,
}
use teiid_operator.Controller.Transitions.Ends.{Ends, Ends-if, Ends-continue, Ends-call}

module _ {W : Type 0} (cluster : Cluster W) where
  Served-Advance :
      (u v : VirtualDatabase)
      → u.status.phase ≡ service_image_finished
      → Served u v × (v.status.phase ≡ service_created)
      → Advance cluster u v
  Served-Advance u v h p =
      (inr (rw (h, p.1) served), p.0.0, p.0.1, ap (λ spec. spec.build) p.0.2, inl p.0.3)

  pub create_service_handle-Advance :
      (s : Context W)
      → s.vdb.status.phase ≡ service_image_finished
      → Ends (Advance cluster s.vdb) (create_service_handle cluster s)
  create_service_handle-Advance s h =
      Served-Advance s.vdb (create_service_handle cluster s).1.vdb h
        (create_service_handle-Served cluster s).1

  certified-Advance :
      (u : VirtualDatabase) (r : Result (Unit {0})) (t : Context W)
      → u.status.phase ≡ service_created
      → AllOrNothing u r t
      → Advance cluster u t.vdb
  certified-Advance u (ok _) t h e = rw e (along cluster u keystore_created (inr (rw h certified)))
  certified-Advance u (err x) t h e = rw e (still cluster u)

  pub create_certificate_handle-Advance :
      (s : Context W)
      → s.vdb.status.phase ≡ service_created
      → Ends (Advance cluster s.vdb) (create_certificate_handle cluster s)
  create_certificate_handle-Advance s h =
      certified-Advance s.vdb (create_certificate_handle cluster s).0
        (create_certificate_handle cluster s).1 h (create_certificate_handle-AllOrNothing cluster s)

module _ {W : Type 0} (cluster : Cluster W) (config : Config) where
  pub prometheus_monitor_handle-Advance :
      (s : Context W) → Ends (Advance cluster s.vdb) (prometheus_monitor_handle cluster config s)
  unfolding prometheus_monitor_handle
  prometheus_monitor_handle-Advance s = still cluster s.vdb

  run_deployment-Advance :
      (s : Context W)
      → s.vdb.status.phase ≡ keystore_created
      → Ends (Advance cluster s.vdb) (run_deployment cluster config s)
  unfolding run_deployment
  run_deployment-Advance s h =
      Ends-call (Advance cluster s.vdb) (cluster.get_build_config s.vdb.namespace s.vdb.name) _ s
        (still cluster s.vdb)
        (λ bc w.
          let found : Result Deployment × W = find_dc cluster config s.vdb w in
          Ends-call (Advance cluster s.vdb) (deploy cluster config s.vdb bc found.0) _
            (record s { world = found.1 }) (still cluster s.vdb)
            (λ _ w'. along cluster s.vdb deploying (inr (rw h deployed))))

  judge_deployment-Advance :
      (item : Deployment) (s : Context W)
      → s.vdb.status.phase ≡ deploying
      → Ends (Advance cluster s.vdb) (judge_deployment cluster config item s)
  unfolding judge_deployment
  judge_deployment-Advance item s h =
      Ends-if (Advance cluster s.vdb) (is_deployment_in_ready_state item) _ _ s
        (along cluster s.vdb running (inr (rw h ready)))
        (Ends-if (Advance cluster s.vdb) (not (is_deployment_progressing item)) _ _ s
          (along cluster s.vdb error (inr (rw h deployment_failed))) (still cluster s.vdb))

  monitor_deployment-Advance :
      (s : Context W)
      → s.vdb.status.phase ≡ deploying
      → Ends (Advance cluster s.vdb) (monitor_deployment cluster config s)
  unfolding monitor_deployment
  monitor_deployment-Advance s h =
      Ends-call (Advance cluster s.vdb) (found_dc cluster config s.vdb)
        (judge_deployment cluster config) s (still cluster s.vdb)
        (λ item w. judge_deployment-Advance item (record s { world = w }) h)

  store_config_digest-Advance :
      (item : Deployment) (digest : Str) (s : Context W)
      → Ends (Advance cluster s.vdb) (store_config_digest cluster config item digest s)
  unfolding store_config_digest
  store_config_digest-Advance item digest s =
      Ends-if (Advance cluster s.vdb) (digest == s.vdb.status.config_digest) _ _ s
        (still cluster s.vdb)
        (Ends-continue (Advance cluster s.vdb) (annotate digest item) _
          (record s { vdb = with_config_digest digest s.vdb })
          (inl refl, refl, refl, refl, inl refl) (λ a. (inl refl, refl, refl, refl, inl refl)))

  store_adjusted-Advance :
      (adjusted : Deployment × Bool) (s : Context W)
      → Ends (Advance cluster s.vdb) (store_adjusted cluster config adjusted s)
  unfolding store_adjusted
  store_adjusted-Advance (item, true) s = still cluster s.vdb
  store_adjusted-Advance (item, false) s =
      Ends-call (Advance cluster s.vdb) (compute_config_digest cluster s.vdb)
        (store_config_digest cluster config item) s (still cluster s.vdb)
        (λ digest w. store_config_digest-Advance item digest (record s { world = w }))

  ensure_replicas-Advance :
      (item : Deployment) (s : Context W)
      → Ends (Advance cluster s.vdb) (ensure_replicas cluster config item s)
  unfolding ensure_replicas
  ensure_replicas-Advance item s =
      let Q : VirtualDatabase → Type 0 = Advance cluster s.vdb in
      let q = still cluster s.vdb in
      Ends-call Q (deployment_environments cluster config s.vdb) _ s q (λ envs w.
        let t : Context W = record s { world = w } in
        Ends-continue Q (read_through s.vdb.spec.replicas) _ t q (λ wanted.
          Ends-continue Q (read_through item.replicas) _ t q (λ found.
            Ends-continue Q (first_container item) _ t q (λ c.
              Ends-continue Q (adjust_env envs c (adjust_replicas wanted found item)) _ t q
                (λ adjusted. store_adjusted-Advance adjusted t)))))

  tend_deployment-Advance :
      (s : Context W) → Ends (Advance cluster s.vdb) (tend_deployment cluster config s)
  unfolding tend_deployment
  tend_deployment-Advance s =
      Ends-call (Advance cluster s.vdb) (found_dc cluster config s.vdb)
        (λ item.
          if is_deployment_in_ready_state item
          then ensure_replicas cluster config item
          else pure tt)
        s (still cluster s.vdb)
        (λ item w.
          Ends-if (Advance cluster s.vdb) (is_deployment_in_ready_state item) _ _
            (record s { world = w }) (ensure_replicas-Advance item (record s { world = w }))
            (still cluster s.vdb))

  deployment_step-Advance :
      (p : Phase) (s : Context W)
      → s.vdb.status.phase ≡ p
      → Ends (Advance cluster s.vdb) (deployment_step cluster config p s)
  unfolding deployment_step
  deployment_step-Advance keystore_created s h = run_deployment-Advance s h
  deployment_step-Advance deploying s h = monitor_deployment-Advance s h
  deployment_step-Advance running s h = tend_deployment-Advance s
  deployment_step-Advance initial s h = still cluster s.vdb
  deployment_step-Advance create_cache_store s h = still cluster s.vdb
  deployment_step-Advance s2i_ready s h = still cluster s.vdb
  deployment_step-Advance builder_image s h = still cluster s.vdb
  deployment_step-Advance builder_image_finished s h = still cluster s.vdb
  deployment_step-Advance builder_image_failed s h = still cluster s.vdb
  deployment_step-Advance service_image s h = still cluster s.vdb
  deployment_step-Advance service_image_finished s h = still cluster s.vdb
  deployment_step-Advance service_image_failed s h = still cluster s.vdb
  deployment_step-Advance service_created s h = still cluster s.vdb
  deployment_step-Advance error s h = still cluster s.vdb
  deployment_step-Advance deleting s h = still cluster s.vdb

  pub deployment_handle-Advance :
      (s : Context W) → Ends (Advance cluster s.vdb) (deployment_handle cluster config s)
  unfolding deployment_handle
  deployment_handle-Advance s = deployment_step-Advance s.vdb.status.phase s refl
