-- ===== src/Controller/Infinispan.antt =====
-- The configuration of a cache store and the operator that runs it, pkg/util/cachestore/infinispan.go.
use teiid_operator.Prelude.{ℕ, Bool, true, false, none, some, ◌++◌}
use teiid_operator.Text.{Str, text_Eq, codes}
use teiid_operator.Table.{lookup}
use teiid_operator.Result.{Result, ok, err}
use teiid_operator.Exec.{Exec, pure, attempt, ◌>>=◌}
use teiid_operator.Vdb.{VirtualDatabase}
use teiid_operator.Controller.Cluster.{Cluster, Secret}
use teiid_operator.Controller.Kubernetes.{has_server_group}
use teiid_operator.Controller.Monitor.{entry}

-- InfinispanDetails
pub record Details : Type 0 where
  pub name : Str
  pub namespace : Str
  pub user : Str
  pub password : Str
  pub url : Str
  pub create_if_not_found : Bool
  pub replicas : ℕ

-- The binary data comes before the textual data.
unfoldable pub secret_entry : Secret → Str → Str
unfolding lookup entry
secret_entry secret key = elim (lookup secret.data_map key) [
  | some v ↦ v
  | none ↦ entry secret.string_data key
]

unfoldable pub read_infinispan_details : Secret → Details
unfolding secret_entry
read_infinispan_details secret = record {
  name = secret_entry secret (codes "name");
  namespace = secret_entry secret (codes "namespace");
  user = secret_entry secret (codes "username");
  password = secret_entry secret (codes "password");
  url = secret_entry secret (codes "url");
  create_if_not_found = false;
  replicas = 0;
}

abbrev pub infinispan_server_group : Str
infinispan_server_group = codes "infinispan.org"

abbrev pub infinispan_operator_name : Str
infinispan_operator_name = codes "infinispan-operator"

module _ {W : Type 0} (cluster : Cluster W) where
  unfoldable pub when_crd_available : Str → Bool → Exec W Bool
  when_crd_available namespace false = pure false
  when_crd_available namespace true = do
    r ← attempt (cluster.get_deployment namespace infinispan_operator_name)
    pure (elim r [ ok _ ↦ true | err _ ↦ false ])

  -- A failed read of the operator's deployment counts as its absence.
  unfoldable pub is_infinispan_operator_available : Str → Exec W Bool
  unfolding has_server_group when_crd_available
  is_infinispan_operator_available namespace =
      has_server_group cluster infinispan_server_group >>= when_crd_available namespace

  unfoldable pub shared_configuration : Str → Result Secret → Exec W Secret
  shared_configuration namespace (ok secret) = pure secret
  shared_configuration namespace (err _) = cluster.get_secret namespace (codes "teiid-cache-store")

  -- Credentials: the database's own configuration, or that of its namespace.
  unfoldable pub credentials : VirtualDatabase → Exec W Details
  unfolding shared_configuration read_infinispan_details
  credentials vdb = do
    own ← attempt (cluster.get_secret vdb.namespace (vdb.name ++ codes "-cache-store"))
    secret ← shared_configuration vdb.namespace own
    pure (read_infinispan_details secret)
