-- ===== src/Controller/Certificates.antt =====
-- Key stores, pkg/controller/virtualdatabase/create-certificates.go.
pub mod Outcome
use teiid_operator.Prelude.{Bool, true, false, Option, none, some, List, [], ◌∷◌, ◌++◌}
use teiid_operator.Text.{Str, codes}
use teiid_operator.Table.{lookup}
use teiid_operator.Result.{Result, ok, err}
use teiid_operator.Exec.{Exec, pure, gets, lift, attempt, ◌>>=◌, ◌>>◌}
use teiid_operator.Vdb.{VirtualDatabase, keystore_created}
use teiid_operator.Controller.Config.{keystore_password, keystore_name, truststore_name}
use teiid_operator.Controller.Cluster.{Cluster, Context, Secret, call}
use teiid_operator.Controller.Kubernetes.{create_owned_secret}
use teiid_operator.Controller.Actions.{Action, create_certificate_can_handle, with_phase, edit}

abbrev pub keystore_secret_name : VirtualDatabase → Str
keystore_secret_name vdb = vdb.name ++ codes "-keystore"

abbrev pub certificate_secret_name : VirtualDatabase → Str
certificate_secret_name vdb = vdb.name ++ codes "-certificates"

-- `m[key]` of a key that is missing
unfoldable pub entry_or_empty : Option Str → Str
entry_or_empty none = []
entry_or_empty (some v) = v

module _ {W : Type 0} (cluster : Cluster W) where
  open cluster use {get_secret, read_service_ca, create_pkcs12_keystore, create_pkcs12_truststore}

  -- From the certificate to the secret with both stores.
  unfoldable pub create_stores : VirtualDatabase → Exec W (Unit {0})
  create_stores vdb = do
    certs ← get_secret vdb.namespace (certificate_secret_name vdb)
    keystore ← lift (
        create_pkcs12_keystore (entry_or_empty (lookup certs.data_map (codes "tls.crt")))
          (entry_or_empty (lookup certs.data_map (codes "tls.key"))) keystore_password)
    trusted ← read_service_ca
    truststore ← lift (create_pkcs12_truststore keystore_password trusted)
    create_owned_secret cluster (keystore_secret_name vdb) vdb.namespace
        ((keystore_name, keystore) ∷ (truststore_name, truststore) ∷ [])

  unfoldable pub unless_stored : Result Secret → Exec (Context W) (Unit {0})
  unless_stored (ok _) = edit (with_phase keystore_created)
  unless_stored (err _) = do
    vdb ← gets (λ s. s.vdb)
    call (create_stores vdb)
    edit (with_phase keystore_created)

  unfoldable pub create_certificate_handle : Exec (Context W) (Unit {0})
  unfolding unless_stored
  create_certificate_handle = do
    vdb ← gets (λ s. s.vdb)
    r ← attempt (call (get_secret vdb.namespace (keystore_secret_name vdb)))
    unless_stored r

  unfoldable pub create_certificate_action : Action W
  create_certificate_action = record {
    can_handle = λ vdb. create_certificate_can_handle vdb.status.phase;
    handle = create_certificate_handle;
  }
