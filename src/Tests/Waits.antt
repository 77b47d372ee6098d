-- ===== src/Tests/Waits.antt =====
-- A resource that waits for the build of its image.
use teiid_operator.Prelude.{◌≡◌, refl, false, [], ◌∷◌, arith}
use teiid_operator.Text.{text_Eq, text_beq, codes}
use teiid_operator.Exec.{pure}
use teiid_operator.Vdb.{VirtualDatabase, initial, service_image, service_image_finished}
use teiid_operator.Controller.Actions.{with_phase}
use teiid_operator.Controller.Cluster.{Cluster, BuildRun, complete, running}
use teiid_operator.Controller.Digest.{
  compute_for_virtual_database, digest_input, write_all, write_if,
}
use teiid_operator.Controller.Updater.{is_vdb_updated, redeploy_vdb}
use teiid_operator.Controller.Updater.Decimal.{atoi_or_zero}
use teiid_operator.Controller.Steps.{reconcile_vdb}
use teiid_operator.Controller.Steps.Verdicts.{IsNewest}
use teiid_operator.Controller.Steps.Arrivals.{image_built}
use teiid_operator.Controller.Steps.Arrived.{IsStoredIn, reconcile_vdb-Arrives}
use teiid_operator.Tests.Samples.{storing, resource, config}

abbrev older_build : BuildRun
older_build = record { phase = running; number = codes "1" }

abbrev newer_build : BuildRun
newer_build = record { phase = complete; number = codes "2" }

abbrev built : Cluster VirtualDatabase
built = record storing { list_builds = λ namespace name. pure (newer_build ∷ older_build ∷ []) }

abbrev waiting : VirtualDatabase
waiting = with_phase service_image (redeploy_vdb built (resource initial))

waiting_current : is_vdb_updated built waiting ≡ false
unfolding is_vdb_updated redeploy_vdb text_beq compute_for_virtual_database digest_input write_all
    write_if
waiting_current = refl

newer_build-IsNewest : IsNewest [] newer_build (older_build ∷ [])
unfolding atoi_or_zero
newer_build-IsNewest = (omega arith, tt, (omega arith, tt))

reconcile_vdb-Arrives_example :
    IsStoredIn built waiting service_image_finished
      (reconcile_vdb built config (codes "default") (codes "portfolio") waiting)
reconcile_vdb-Arrives_example =
    reconcile_vdb-Arrives built config (λ v w. refl) (λ v w h. refl) (codes "default")
      (codes "portfolio") waiting waiting service_image service_image_finished refl waiting_current
      refl (image_built [] newer_build (older_build ∷ []) refl newer_build-IsNewest refl)
