-- ===== src/Controller/Frame/Tending.antt =====
-- The handler of the deployment: Controller/Deployment.antt.
use teiid_operator.Prelude.{Bool, true, false, not, ◌==◌, if◌then◌else◌}
use teiid_operator.Text.{Str, text_Eq}
use teiid_operator.Result.{Result}
use teiid_operator.Exec.{pure}
use teiid_operator.Vdb.{
  VirtualDatabase, Phase, ExposeType, load_balancer, node_port, route, expose_via_3scale,
}
use teiid_operator.Vdb
use teiid_operator.Controller.Config.{Config}
use teiid_operator.Controller.Cluster.{Cluster, Deployment, call}
use teiid_operator.Controller.Digest.{compute_config_digest}
use teiid_operator.Controller.Environments.{deployment_environments}
use teiid_operator.Controller.Pods.{
  annotate, is_deployment_in_ready_state, is_deployment_progressing, read_through, first_container,
  adjust_env, adjust_replicas,
}
use teiid_operator.Controller.Initialize.{with_config_digest}
use teiid_operator.Controller.Deployment.{
  find_dc, found_dc, deploy, run_deployment, judge_deployment, monitor_deployment,
  store_config_digest, store_adjusted, ensure_replicas, tend_deployment, deployment_step,
  deployment_handle,
}
use teiid_operator.Controller.Frame.{Keeps, OfWorld, Frame, Keeps-bind, Keeps-continue, Keeps-if}
use teiid_operator.Controller.Frame.Early.{Keeps-call}
use teiid_operator.Controller.Frame.Reads.{compute_config_digest-Keeps}
use teiid_operator.Controller.Frame.Deployments.{
  find_dc-Keeps, found_dc-Keeps, deployment_environments-Keeps, deploy-Keeps,
}

module _ {W : Type 0} {P : W → Type 0} {cluster : Cluster W} (frame : Frame P cluster)
    (config : Config) where
  run_deployment-Keeps : Keeps (OfWorld P) (run_deployment cluster config)
  unfolding run_deployment
  run_deployment-Keeps s p =
      Keeps-bind (OfWorld P) (call (cluster.get_build_config s.vdb.namespace s.vdb.name)) _
        (Keeps-call P (cluster.get_build_config s.vdb.namespace s.vdb.name)
          (frame.get_build_config s.vdb.namespace s.vdb.name))
        (λ bc t q.
          let read : Result Deployment × W = find_dc cluster config s.vdb t.world in
          Keeps-bind (OfWorld P) (call (deploy cluster config s.vdb bc read.0)) _
            (Keeps-call P (deploy cluster config s.vdb bc read.0)
              (deploy-Keeps frame config s.vdb bc read.0))
            (λ a s p. p) (record t { world = read.1 }) (find_dc-Keeps frame config s.vdb t.world q))
        s p

  judge_deployment-Keeps :
      (item : Deployment) → Keeps (OfWorld P) (judge_deployment cluster config item)
  unfolding judge_deployment
  judge_deployment-Keeps item =
      Keeps-if (OfWorld P) (is_deployment_in_ready_state item) _ _ (λ s p. p)
        (Keeps-if (OfWorld P) (not (is_deployment_progressing item)) _ _ (λ s p. p) (λ s p. p))

  monitor_deployment-Keeps : Keeps (OfWorld P) (monitor_deployment cluster config)
  unfolding monitor_deployment
  monitor_deployment-Keeps s p =
      Keeps-bind (OfWorld P) (call (found_dc cluster config s.vdb))
        (judge_deployment cluster config)
        (Keeps-call P (found_dc cluster config s.vdb) (found_dc-Keeps frame config s.vdb))
        judge_deployment-Keeps s p

  store_config_digest-Keeps :
      (item : Deployment) (digest : Str)
      → Keeps (OfWorld P) (store_config_digest cluster config item digest)
  unfolding store_config_digest
  store_config_digest-Keeps item digest s p =
      Keeps-if (OfWorld P) (digest == s.vdb.status.config_digest) _ _ (λ s p. p)
        (λ s p.
          Keeps-continue (OfWorld P) (annotate digest item) _
            (record s { vdb = with_config_digest digest s.vdb }) p
            (λ a. frame.update_deployment a s.world p))
        s p

  store_adjusted-Keeps :
      (adjusted : Deployment × Bool) → Keeps (OfWorld P) (store_adjusted cluster config adjusted)
  unfolding store_adjusted
  store_adjusted-Keeps (item, true) = λ s p. frame.update_deployment item s.world p
  store_adjusted-Keeps (item, false) = λ s p.
      Keeps-bind (OfWorld P) (call (compute_config_digest cluster s.vdb))
        (store_config_digest cluster config item)
        (Keeps-call P (compute_config_digest cluster s.vdb)
          (compute_config_digest-Keeps frame s.vdb))
        (store_config_digest-Keeps item) s p

  ensure_replicas-Keeps :
      (item : Deployment) → Keeps (OfWorld P) (ensure_replicas cluster config item)
  unfolding ensure_replicas
  ensure_replicas-Keeps item s p =
      Keeps-bind (OfWorld P) (call (deployment_environments cluster config s.vdb)) _
        (Keeps-call P (deployment_environments cluster config s.vdb)
          (deployment_environments-Keeps frame config s.vdb))
        (λ envs t q. Keeps-continue (OfWorld P) (read_through s.vdb.spec.replicas) _ t q (λ wanted.
          Keeps-continue (OfWorld P) (read_through item.replicas) _ t q (λ found.
            Keeps-continue (OfWorld P) (first_container item) _ t q (λ c.
              Keeps-continue (OfWorld P) (adjust_env envs c (adjust_replicas wanted found item))
                (store_adjusted cluster config) t q
                (λ adjusted. store_adjusted-Keeps adjusted t q)))))
        s p

  unless_ready-Keeps :
      (item : Deployment)
      → Keeps (OfWorld P) (
          if is_deployment_in_ready_state item
          then ensure_replicas cluster config item
          else pure tt)
  unless_ready-Keeps item =
      Keeps-if (OfWorld P) (is_deployment_in_ready_state item) _ (pure tt)
        (ensure_replicas-Keeps item) (λ s p. p)

  tend_deployment-Keeps : Keeps (OfWorld P) (tend_deployment cluster config)
  unfolding tend_deployment
  tend_deployment-Keeps s p =
      Keeps-bind (OfWorld P) (call (found_dc cluster config s.vdb))
        (λ item.
          if is_deployment_in_ready_state item
          then ensure_replicas cluster config item
          else pure tt)
        (Keeps-call P (found_dc cluster config s.vdb) (found_dc-Keeps frame config s.vdb))
        unless_ready-Keeps s p

  deployment_step-Keeps : (q : Phase) → Keeps (OfWorld P) (deployment_step cluster config q)
  unfolding deployment_step
  deployment_step-Keeps Vdb.keystore_created = run_deployment-Keeps
  deployment_step-Keeps Vdb.deploying = monitor_deployment-Keeps
  deployment_step-Keeps Vdb.running = tend_deployment-Keeps
  deployment_step-Keeps _ = λ s p. p

  pub deployment_handle-Keeps : Keeps (OfWorld P) (deployment_handle cluster config)
  unfolding deployment_handle
  deployment_handle-Keeps s p = deployment_step-Keeps s.vdb.status.phase s p
