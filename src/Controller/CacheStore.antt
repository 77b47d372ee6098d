-- ===== src/Controller/CacheStore.antt =====
-- The step for the cache store: pkg/controller/virtualdatabase/cachestore.go, and ParseBool of the package
-- `strconv`.
pub mod Outcome
use teiid_operator.Prelude.{
  ℕ, Bool, true, false, not, ◌||◌, Option, none, some, List, [], ◌∷◌, ◌++◌, ◌==◌, if◌then◌else◌,
}
use teiid_operator.Text.{Str, text_Eq, codes, join}
use teiid_operator.Table.{lookup}
use teiid_operator.Result.{Result, ok, err, failed}
use teiid_operator.Exec.{Exec, pure, raise, gets, attempt, ◌>>=◌, ◌>>◌}
use teiid_operator.Envvar.{EnvVar, get}
use teiid_operator.Vdb.{VirtualDatabase, s2i_ready}
use teiid_operator.Controller.Cluster.{Cluster, Context, Secret, call, draw_password}
use teiid_operator.Controller.Kubernetes.{has_server_group, create_owned_secret}
use teiid_operator.Controller.Monitor.{entry}
use teiid_operator.Controller.Updater.Decimal.{pos, itoa}
use teiid_operator.Controller.Actions.{Action, cache_store_can_handle, with_phase, edit}
use teiid_operator.Controller.Infinispan.{
  Details, secret_entry, read_infinispan_details, infinispan_server_group, infinispan_operator_name,
  when_crd_available, is_infinispan_operator_available, shared_configuration, credentials,
}

unfoldable pub among : Str → List Str → Bool
among s [] = false
among s (t ∷ ts) = s == t || among s ts

-- The value beside an error is `false`.
unfoldable pub parse_bool : Str → Bool
unfolding among
parse_bool s =
    among s (codes "1" ∷ codes "t" ∷ codes "T" ∷ codes "true" ∷ codes "TRUE" ∷ codes "True" ∷ [])

-- Is the cache store left out, given that the operator is there and the variable that says so?
unfoldable pub ignores : Bool → Option EnvVar → Bool
unfolding parse_bool
ignores there none = not there
ignores there (some flag) = not there || parse_bool flag.value

unfoldable pub default_details : VirtualDatabase → Str → Details
default_details vdb password = record {
  name = vdb.name ++ codes "-cache-store";
  namespace = vdb.namespace;
  user = codes "developer";
  password = password;
  url = [];
  create_if_not_found = true;
  replicas = 3;
}

unfoldable pub identities : Details → Str → Str
unfolding join
identities ispn operator_password =
    join
      (codes "credentials:"
        ∷ (codes "- username: " ++ ispn.user)
        ∷ (codes "  password: " ++ ispn.password)
        ∷ codes "- username: operator"
        ∷ (codes "  password: " ++ operator_password)
        ∷ [])
      (10 ∷ [])

abbrev pub identity_secret : Details → Str
identity_secret ispn = ispn.name ++ codes "-identity"

-- The flag is `FALSE` where a store is to be created, as in the source.
unfoldable pub cache_store_secret : Details → List (Str × Str)
unfolding itoa
cache_store_secret ispn =
    (codes "name", ispn.name)
    ∷ (codes "namespace", ispn.namespace)
    ∷ (codes "username", ispn.user)
    ∷ (codes "password", ispn.password)
    ∷ (codes "url", ispn.name ++ codes ":11222")
    ∷ (codes "create", if ispn.create_if_not_found then codes "FALSE" else codes "TRUE")
    ∷ (codes "replicas", itoa (pos ispn.replicas))
    ∷ []

abbrev pub with_cache_store : Details → VirtualDatabase → VirtualDatabase
with_cache_store d vdb = record vdb {
  status = record vdb.status { cache_store = d.namespace ++ codes "/" ++ d.name };
}

abbrev pub operator_missing : Str
operator_missing = codes "Failed to create CacheStore as Infinispan Operator not found"

module _ {W : Type 0} (cluster : Cluster W) where
  unfoldable pub ignore_cache_store : VirtualDatabase → Exec W Bool
  unfolding is_infinispan_operator_available ignores get
  ignore_cache_store vdb = do
    there ← is_infinispan_operator_available cluster vdb.namespace
    pure (ignores there (get vdb.spec.env (codes "DISABLE_ISPN_CACHING")))

  unfoldable pub create_infinispan_cluster : Details → Exec W (Unit {0})
  unfolding identities create_owned_secret draw_password
  create_infinispan_cluster ispn = do
    operator_password ← draw_password cluster
    create_owned_secret cluster (identity_secret ispn) ispn.namespace
        ((codes "identities.yaml", identities ispn operator_password) ∷ [])
    attempt (cluster.set_controller_reference ispn.name)
    cluster.create_infinispan (record {
      namespace = ispn.namespace;
      name = ispn.name;
      endpoint_secret_name = identity_secret ispn;
      replicas = 3;
    })

  unfoldable pub create_new_cache_store : Details → Exec W (Unit {0})
  unfolding is_infinispan_operator_available create_infinispan_cluster
  create_new_cache_store ispn =
      is_infinispan_operator_available cluster ispn.namespace
      >>= elim [ true ↦ create_infinispan_cluster ispn | false ↦ raise (failed operator_missing) ]

  unfoldable pub create_cache_store_secret : Details → Exec W (Unit {0})
  unfolding cache_store_secret create_owned_secret
  create_cache_store_secret ispn =
      create_owned_secret cluster ispn.name ispn.namespace (cache_store_secret ispn)

  -- The configuration that was found, or the default one; and whether it was found.
  unfoldable pub found_details : VirtualDatabase → Result Details → Exec W (Details × Bool)
  unfolding default_details draw_password
  found_details vdb (ok d) = pure (d, true)
  found_details vdb (err _) = do
    password ← draw_password cluster
    pure (default_details vdb password, false)

  -- After the creation of a store: failures are only logged.
  unfoldable pub record_cache_store :
      Details → Bool → Result (Unit {0}) → Exec (Context W) (Unit {0})
  unfolding create_cache_store_secret
  record_cache_store d secret_found (err _) = pure tt
  record_cache_store d true (ok _) = edit (with_cache_store d)
  record_cache_store d false (ok _) = do
    edit (with_cache_store d)
    attempt (call (create_cache_store_secret d))
    pure tt

  unfoldable pub when_create : Details × Bool → Exec (Context W) (Unit {0})
  unfolding create_new_cache_store record_cache_store
  when_create (d, secret_found) =
      if d.create_if_not_found
      then (do r ← attempt (call (create_new_cache_store d)); record_cache_store d secret_found r)
      else pure tt

  unfoldable pub unless_ignored : Bool → Exec (Context W) (Unit {0})
  unfolding credentials found_details when_create
  unless_ignored true = edit (with_phase s2i_ready)
  unless_ignored false = do
    vdb ← gets (λ s. s.vdb)
    r ← attempt (call (credentials cluster vdb))
    d ← call (found_details vdb r)
    when_create d
    edit (with_phase s2i_ready)

  unfoldable pub cache_store_handle : Exec (Context W) (Unit {0})
  unfolding ignore_cache_store unless_ignored
  cache_store_handle = do
    vdb ← gets (λ s. s.vdb)
    ignored ← call (ignore_cache_store vdb)
    unless_ignored ignored

  unfoldable pub cache_store_action : Action W
  cache_store_action = record {
    can_handle = λ vdb. cache_store_can_handle vdb.status.phase;
    handle = cache_store_handle;
  }
