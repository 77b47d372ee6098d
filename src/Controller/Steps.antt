-- ===== src/Controller/Steps.antt =====
-- The list of the actions in Reconcile, pkg/controller/virtualdatabase/virtualdatabase_controller.go.
pub mod Once
pub mod Runs
pub mod Trail
pub mod Progress
pub mod Ahead
pub mod Verdicts
pub mod Arrivals
pub mod Waits
pub mod Reconciled
pub mod Arrived
use teiid_operator.Prelude.{List, [], ◌∷◌}
use teiid_operator.Text.{Str}
use teiid_operator.Exec.{Exec}
use teiid_operator.Controller.Config.{Config}
use teiid_operator.Controller.Cluster.{Cluster}
use teiid_operator.Controller.Actions.{Action}
use teiid_operator.Controller.Initialize.{initialize_action}
use teiid_operator.Controller.CacheStore.{cache_store_action}
use teiid_operator.Controller.BuilderImage.{s2i_builder_image_action}
use teiid_operator.Controller.ServiceImage.{service_image_action}
use teiid_operator.Controller.Services.Handle.{create_service_action}
use teiid_operator.Controller.Certificates.{create_certificate_action}
use teiid_operator.Controller.Deployment.{deployment_action}
use teiid_operator.Controller.Monitor.{prometheus_monitor_action}
use teiid_operator.Controller.Reconcile.{Requeue, reconcile}

module _ {W : Type 0} (cluster : Cluster W) (config : Config) where
  unfoldable pub build_steps : List (Action W)
  build_steps =
      initialize_action cluster
      ∷ cache_store_action cluster
      ∷ s2i_builder_image_action cluster config
      ∷ service_image_action cluster config
      ∷ create_service_action cluster
      ∷ create_certificate_action cluster
      ∷ deployment_action cluster config
      ∷ prometheus_monitor_action cluster config
      ∷ []

  unfoldable pub reconcile_vdb : Str → Str → Exec W Requeue
  unfolding build_steps reconcile
  reconcile_vdb namespace name = reconcile cluster build_steps namespace name
