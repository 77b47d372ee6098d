-- ===== src/Controller/Certificates/Outcome.antt =====
-- What a run of the step in pkg/controller/virtualdatabase/create-certificates.go leaves behind.
use teiid_operator.Prelude.{◌≡◌, refl}
use teiid_operator.Result.{Result, ok, err}
use teiid_operator.Exec.{continue}
use teiid_operator.Vdb.{VirtualDatabase, keystore_created}
use teiid_operator.Controller.Cluster.{Cluster, Context, Secret}
use teiid_operator.Controller.Actions.{with_phase, edit}
use teiid_operator.Controller.Certificates.{
  create_stores, unless_stored, keystore_secret_name, create_certificate_handle,
}

-- Success with the resource in the next phase, or an error with the resource untouched.
abbrev pub AllOrNothing : {W : Type 0} → VirtualDatabase → Result (Unit {0}) → Context W → Type 0
AllOrNothing vdb (ok u) s = s.vdb ≡ with_phase keystore_created vdb
AllOrNothing vdb (err e) s = s.vdb ≡ vdb

module _ {W : Type 0} (cluster : Cluster W) where
  stored-AllOrNothing :
      (vdb : VirtualDatabase) (r : Result (Unit {0})) (w : W)
      → let end : Result (Unit {0}) × Context W =
          continue r (λ _. edit (with_phase keystore_created)) (record { vdb = vdb; world = w }) in
        AllOrNothing vdb end.0 end.1
  stored-AllOrNothing vdb (ok u) w = refl
  stored-AllOrNothing vdb (err e) w = refl

  unless_stored-AllOrNothing :
      (r : Result Secret) (s : Context W)
      → AllOrNothing s.vdb (unless_stored cluster r s).0 (unless_stored cluster r s).1
  unfolding unless_stored
  unless_stored-AllOrNothing (ok a) s = refl
  unless_stored-AllOrNothing (err e) s =
      stored-AllOrNothing s.vdb (create_stores cluster s.vdb s.world).0
        (create_stores cluster s.vdb s.world).1

  -- The step ends without an error and in the phase after it, or with an error and the resource as it was,
  -- so that the next reconciliation tries the step again.
  pub create_certificate_handle-AllOrNothing :
      (s : Context W)
      → AllOrNothing s.vdb
          (create_certificate_handle cluster s).0
          (create_certificate_handle cluster s).1
  unfolding create_certificate_handle
  create_certificate_handle-AllOrNothing s =
      let found : Result Secret × W =
        cluster.get_secret s.vdb.namespace (keystore_secret_name s.vdb) s.world in
      unless_stored-AllOrNothing found.0 (record s { world = found.1 })
