-- ===== src/Tests/Loop.antt =====
-- What the loop stores, and what it adjusts.
use teiid_operator.Prelude.{◌≡◌, refl, none, some, [], ◌∷◌, true}
use teiid_operator.Text.{codes, text_beq}
use teiid_operator.Result.{ok}
use teiid_operator.Vdb.{deploying}
use teiid_operator.Controller.Cluster.{Deployment, Container}
use teiid_operator.Controller.Digest.{digest_input, compute_for_virtual_database}
use teiid_operator.Controller.Updater.{is_vdb_updated}
use teiid_operator.Controller.Reconcile.{
  done, process, reconcile_instance, start, when_fetched, reconcile,
}
use teiid_operator.Controller.Reconcile.Stored.{ReadsWrites}
use teiid_operator.Controller.Steps.{reconcile_vdb}
use teiid_operator.Controller.Steps.Reconciled.{HasNext, reconcile_vdb-HasNext}
use teiid_operator.Controller.Pods.{no_deployment, first_container, adjust_replicas, adjust_env}
use teiid_operator.Controller.Pods.Settled.{Settled, adjust-Settled}
use teiid_operator.Tests.Samples.{storing, resource, config, variable}

storing-ReadsWrites : ReadsWrites storing
storing-ReadsWrites v w h = refl

outdated : is_vdb_updated storing (resource deploying) ≡ true
unfolding is_vdb_updated text_beq compute_for_virtual_database digest_input
outdated = refl

ends_done :
    (reconcile_vdb storing config (codes "prod") (codes "sales") (resource deploying)).0 ≡ ok done
unfolding reconcile_vdb reconcile when_fetched start reconcile_instance process
ends_done = rw outdated refl

reconcile_vdb-HasNext_example :
    HasNext storing
      (resource deploying)
      (reconcile_vdb storing config (codes "prod") (codes "sales") (resource deploying)).1
reconcile_vdb-HasNext_example =
    reconcile_vdb-HasNext storing config storing-ReadsWrites (codes "prod") (codes "sales")
      (resource deploying) (resource deploying) refl ends_done

abbrev pod : Container
pod = record {
  name = codes "sales";
  env = [];
  image = codes "sales:latest";
  image_pull_policy = codes "Always";
  ports = [];
  resources = record { limits = []; requests = [] };
  liveness_probe = none;
  readiness_probe = none;
  working_dir = [];
  volume_mounts = [];
}

abbrev deployment : Deployment
deployment = record no_deployment { replicas = some 1; containers = pod ∷ [] }

has_pod : first_container deployment ≡ ok pod
unfolding first_container
has_pod = refl

adjust-Settled_example :
    Settled 3 (variable (codes "DB_USER") (codes "sa") ∷ []) deployment (
      adjust_env
        (variable (codes "DB_USER") (codes "sa") ∷ [])
        pod
        (adjust_replicas 3 1 deployment))
adjust-Settled_example =
    adjust-Settled 3 1 (variable (codes "DB_USER") (codes "sa") ∷ []) pod deployment refl has_pod
