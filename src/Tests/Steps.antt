-- ===== src/Tests/Steps.antt =====
-- Reconciliations and their steps.
use teiid_operator.Prelude.{ℕ, ◌≡◌, refl, false, [], ◌∷◌, arith}
use teiid_operator.Vdb.{Phase, initial, service_created, builder_image}
use teiid_operator.Controller.Cluster.{Cluster, Context}
use teiid_operator.Controller.Digest.{compute_for_virtual_database}
use teiid_operator.Controller.Digest.Laws.{digest_collision}
use teiid_operator.Controller.Updater.{is_vdb_updated, redeploy_vdb}
use teiid_operator.Controller.Updater.Versions.{redeploy_vdb-is_vdb_updated}
use teiid_operator.Controller.Initialize.{initialize_handle}
use teiid_operator.Controller.Initialize.Outcome.{Outcome, initialize_handle-Outcome}
use teiid_operator.Controller.Certificates.{
  unless_stored, create_stores, create_certificate_handle, create_certificate_action,
}
use teiid_operator.Controller.Certificates.Outcome.{
  AllOrNothing, create_certificate_handle-AllOrNothing,
}
use teiid_operator.Controller.Reconcile.{run_actions}
use teiid_operator.Controller.Reconcile.Laws.{IsQuiet, Steady, run_actions-Steady}
use teiid_operator.Tests.Samples.{cluster_with, unavailable, resource, shifted_resource}

abbrev bare : Cluster ℕ
bare = cluster_with unavailable

abbrev at_phase : Phase → Context ℕ
at_phase p = record { vdb = resource p; world = 7 }

initialize_handle-Outcome_example :
    Outcome bare (resource initial) (initialize_handle bare (at_phase initial))
initialize_handle-Outcome_example = initialize_handle-Outcome bare (at_phase initial) refl

create_certificate_handle-AllOrNothing_example :
    AllOrNothing
      (resource service_created)
      (create_certificate_handle bare (at_phase service_created)).0
      (create_certificate_handle bare (at_phase service_created)).1
create_certificate_handle-AllOrNothing_example =
    create_certificate_handle-AllOrNothing bare (at_phase service_created)

refused_certificates :
    IsQuiet bare (resource service_created) (λ w. w ≡ 7) (create_certificate_action bare)
unfolding create_certificate_action create_certificate_handle unless_stored create_stores
refused_certificates w p h = (refl, p, λ e. ground (arith, e))

run_actions-Steady_example :
    Steady bare
      (resource service_created)
      (λ w. w ≡ 7)
      (run_actions bare
        (resource service_created)
        (create_certificate_action bare ∷ [])
        (at_phase service_created))
run_actions-Steady_example =
    run_actions-Steady bare (resource service_created) (λ w. w ≡ 7)
      (create_certificate_action bare ∷ []) (refused_certificates, tt) 7 refl

redeploy_vdb-is_vdb_updated_example :
    (is_vdb_updated bare (redeploy_vdb bare (resource builder_image)) ≡ false)
    × ((redeploy_vdb bare (resource builder_image)).status.phase ≡ initial)
redeploy_vdb-is_vdb_updated_example = redeploy_vdb-is_vdb_updated bare (resource builder_image)

digest_collision_example :
    compute_for_virtual_database bare (resource initial)
    ≡ compute_for_virtual_database bare (shifted_resource initial)
digest_collision_example = digest_collision bare (resource initial) (shifted_resource initial) refl
