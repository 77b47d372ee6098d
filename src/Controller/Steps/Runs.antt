-- ===== src/Controller/Steps/Runs.antt =====
-- The phases that no reconciliation leaves.
use teiid_operator.Prelude.{◌≡◌, Bool, true, false, arith}
use teiid_operator.Text.{text_Eq}
use teiid_operator.Result.{ok}
use teiid_operator.Vdb.{
  VirtualDatabase, Phase, builder_image_failed, service_image_failed, error, deleting,
}
use teiid_operator.Controller.Config.{Config}
use teiid_operator.Controller.Cluster.{Cluster, Context}
use teiid_operator.Controller.Reconcile.{requeue_after, run_actions}
use teiid_operator.Controller.Reconcile.Laws.{NoneHandles, run_actions-NoneHandles}
use teiid_operator.Controller.Initialize.{initialize_action}
use teiid_operator.Controller.CacheStore.{cache_store_action}
use teiid_operator.Controller.BuilderImage.{s2i_builder_image_action}
use teiid_operator.Controller.ServiceImage.{service_image_action}
use teiid_operator.Controller.Services.Handle.{create_service_action}
use teiid_operator.Controller.Certificates.{create_certificate_action}
use teiid_operator.Controller.Deployment.{deployment_action}
use teiid_operator.Controller.Monitor.{prometheus_monitor_action}
use teiid_operator.Controller.Steps.{build_steps}

-- The phases that no action takes.
abbrev pub is_final : Phase → Bool
is_final builder_image_failed = true
is_final service_image_failed = true
is_final error = true
is_final deleting = true
is_final _ = false

module _ {W : Type 0} (cluster : Cluster W) (config : Config) where
  final-NoneHandles :
      (u : VirtualDatabase)
      → is_final u.status.phase ≡ true
      → NoneHandles cluster u (build_steps cluster config)
  unfolding build_steps initialize_action cache_store_action s2i_builder_image_action
      service_image_action create_service_action create_certificate_action deployment_action
      prometheus_monitor_action
  final-NoneHandles u h = ground (arith, h)

  -- A resource in a phase of failure, or in that of deletion, is left alone: the run asks nothing of the
  -- cluster and comes back in five seconds.
  pub build_steps-is_final :
      (s : Context W)
      → is_final s.vdb.status.phase ≡ true
      → run_actions cluster s.vdb (build_steps cluster config) s ≡ (ok (requeue_after 5), s)
  build_steps-is_final s h =
      run_actions-NoneHandles cluster (build_steps cluster config) s (final-NoneHandles s.vdb h)
