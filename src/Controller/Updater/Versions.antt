-- ===== src/Controller/Updater/Versions.antt =====
-- RedeployVdb of pkg/controller/virtualdatabase/updater.go.
use teiid_operator.Prelude.{◌≡◌, refl, false}
use teiid_operator.Text.{text_Eq, eq_refl}
use teiid_operator.Vdb.{VirtualDatabase, initial}
use teiid_operator.Controller.Cluster.{Cluster}
use teiid_operator.Controller.Digest.{digest_input, compute_for_virtual_database}
use teiid_operator.Controller.Updater.{is_vdb_updated, redeploy_vdb}

redeploy_digest :
    {W : Type 0} (cluster : Cluster W) (vdb : VirtualDatabase)
    → compute_for_virtual_database cluster (redeploy_vdb cluster vdb)
      ≡ compute_for_virtual_database cluster vdb
unfolding compute_for_virtual_database digest_input redeploy_vdb
redeploy_digest cluster vdb = refl

redeploy_status :
    {W : Type 0} (cluster : Cluster W) (vdb : VirtualDatabase)
    → (redeploy_vdb cluster vdb).status.digest ≡ compute_for_virtual_database cluster vdb
unfolding redeploy_vdb
redeploy_status cluster vdb = refl

redeploy_phase :
    {W : Type 0} (cluster : Cluster W) (vdb : VirtualDatabase)
    → (redeploy_vdb cluster vdb).status.phase ≡ initial
unfolding redeploy_vdb
redeploy_phase cluster vdb = refl

-- After a redeployment the digest is that of the source, so that the next reconciliation starts at the
-- initial phase and redeploys no more.
pub redeploy_vdb-is_vdb_updated :
    {W : Type 0} (cluster : Cluster W) (vdb : VirtualDatabase)
    → (is_vdb_updated cluster (redeploy_vdb cluster vdb) ≡ false)
      × ((redeploy_vdb cluster vdb).status.phase ≡ initial)
unfolding is_vdb_updated
redeploy_vdb-is_vdb_updated cluster vdb = (
  rw (
    redeploy_digest cluster vdb,
    redeploy_status cluster vdb,
    eq_refl (compute_for_virtual_database cluster vdb),
  ),
  redeploy_phase cluster vdb,
)
