-- ===== src/Controller/Frame/Reads.antt =====
-- What the operator reads, and the secrets that it writes: Controller/Kubernetes.antt,
-- Controller/Infinispan.antt, Controller/Digest.antt, Maven/Download.antt and Controller/Ddl.antt.
use teiid_operator.Prelude.{Bool, true, false, Option, none, some, List, [], ◌∷◌, ◌++◌, ◌==◌}
use teiid_operator.Text.{Str, text_Eq, codes}
use teiid_operator.Result.{Result, ok, err}
use teiid_operator.Exec.{Exec, pure, ◌>>=◌}
use teiid_operator.Envvar.{EnvVar, EnvVarSource, KeySelector}
use teiid_operator.Vdb.{VirtualDatabase, DataSourceObject}
use teiid_operator.Controller.Cluster.{Cluster, Secret}
use teiid_operator.Controller.Kubernetes.{
  succeeds, has_secret, has_config_map, get_secret_ref_value, get_config_map_ref_value,
  source_exists, environment_properties_exists, source_revision, revision_of_config_map_or_secret,
  create_owned_secret, has_server_group,
}
use teiid_operator.Controller.Infinispan.{
  infinispan_server_group, when_crd_available, is_infinispan_operator_available,
  shared_configuration, credentials,
}
use teiid_operator.Controller.Digest.{revisions, source_revisions, compute_config_digest}
use teiid_operator.Controller.Frame.{Keeps, Frame, Keeps-bind, Keeps-elim, Keeps-if}

module _ {W A : Type 0} (P : W → Type 0) where
  pub succeeds-Keeps : (m : Exec W A) → Keeps P m → Keeps P (succeeds m)
  succeeds-Keeps m km w p = go (m w).0 (m w).1 (km w p)
    where
      go : (r : Result A) → Keeps P (elim r [ ok _ ↦ pure true | err _ ↦ pure false ])
      go (ok a) w p = p
      go (err e) w p = p

module _ {W : Type 0} {P : W → Type 0} {cluster : Cluster W} (frame : Frame P cluster) where
  pub has_secret-Keeps : (name namespace : Str) → Keeps P (has_secret cluster name namespace)
  unfolding has_secret
  has_secret-Keeps name namespace =
      succeeds-Keeps P (cluster.get_secret namespace name) (frame.get_secret namespace name)

  pub has_config_map-Keeps :
      (name namespace : Str) → Keeps P (has_config_map cluster name namespace)
  unfolding has_config_map
  has_config_map-Keeps name namespace =
      succeeds-Keeps P (cluster.get_config_map namespace name) (frame.get_config_map namespace name)

  pub get_secret_ref_value-Keeps :
      (namespace : Str) (selector : KeySelector)
      → Keeps P (get_secret_ref_value cluster namespace selector)
  unfolding get_secret_ref_value
  get_secret_ref_value-Keeps namespace selector =
      Keeps-bind P (cluster.get_secret namespace selector.name) _
        (frame.get_secret namespace selector.name) (λ secret w p. p)

  pub get_config_map_ref_value-Keeps :
      (namespace : Str) (selector : KeySelector)
      → Keeps P (get_config_map_ref_value cluster namespace selector)
  unfolding get_config_map_ref_value
  get_config_map_ref_value-Keeps namespace selector =
      Keeps-bind P (cluster.get_config_map namespace selector.name) _
        (frame.get_config_map namespace selector.name) (λ cm w p. p)

  source_exists-Keeps :
      (namespace : Str) (from : EnvVarSource) → Keeps P (source_exists cluster namespace from)
  unfolding source_exists
  source_exists-Keeps namespace from = go from.config_map_key_ref from.secret_key_ref
    where
      go :
          (c s : Option KeySelector)
          → Keeps P (elim c [
            | some selector ↦ succeeds (get_config_map_ref_value cluster namespace selector)
            | none ↦ elim s [
              | some selector ↦ succeeds (get_secret_ref_value cluster namespace selector)
              | none ↦ pure false
            ]
          ])
      go (some selector) s =
          succeeds-Keeps P (get_config_map_ref_value cluster namespace selector)
            (get_config_map_ref_value-Keeps namespace selector)
      go none (some selector) =
          succeeds-Keeps P (get_secret_ref_value cluster namespace selector)
            (get_secret_ref_value-Keeps namespace selector)
      go none none = λ w p. p

  pub environment_properties_exists-Keeps :
      (namespace : Str) (envs : List EnvVar)
      → Keeps P (environment_properties_exists cluster namespace envs)
  unfolding environment_properties_exists
  environment_properties_exists-Keeps namespace [] = λ w p. p
  environment_properties_exists-Keeps namespace (env ∷ envs) =
      go env.value_from (environment_properties_exists-Keeps namespace envs)
    where
      go :
          (from : Option EnvVarSource)
          → Keeps P (environment_properties_exists cluster namespace envs)
          → Keeps P (elim from [
            | none ↦ environment_properties_exists cluster namespace envs
            | some x ↦ source_exists cluster namespace x >>= elim [
              | true ↦ environment_properties_exists cluster namespace envs
              | false ↦ pure false
            ]
          ])
      go none later = later
      go (some x) later =
          Keeps-bind P (source_exists cluster namespace x) _ (source_exists-Keeps namespace x)
            (λ b. Keeps-elim P b _ _ later (λ w p. p))

  source_revision-Keeps :
      (namespace : Str) (from : EnvVarSource) → Keeps P (source_revision cluster namespace from)
  unfolding source_revision
  source_revision-Keeps namespace from = go from.config_map_key_ref from.secret_key_ref
    where
      go :
          (c s : Option KeySelector)
          → Keeps {A = Str} P (elim c [
            | some selector ↦ do
              cm ← cluster.get_config_map namespace selector.name
              pure cm.resource_version
            | none ↦ elim s [
              | some selector ↦ do
                x ← cluster.get_secret namespace selector.name
                pure x.resource_version
              | none ↦ pure []
            ]
          ])
      go (some selector) s =
          Keeps-bind P (cluster.get_config_map namespace selector.name) _
            (frame.get_config_map namespace selector.name) (λ cm w p. p)
      go none (some selector) =
          Keeps-bind P (cluster.get_secret namespace selector.name) _
            (frame.get_secret namespace selector.name) (λ x w p. p)
      go none none = λ w p. p

  revision-Keeps :
      (namespace : Str) (env : EnvVar)
      → Keeps P (revision_of_config_map_or_secret cluster namespace env)
  unfolding revision_of_config_map_or_secret
  revision-Keeps namespace env =
      Keeps-if P (env.value == []) _ (pure env.value) (go env.value_from) (λ w p. p)
    where
      go :
          (o : Option EnvVarSource)
          → Keeps P (elim o [
            | none ↦ pure env.value
            | some from ↦ source_revision cluster namespace from
          ])
      go none = λ w p. p
      go (some from) = source_revision-Keeps namespace from

  pub create_owned_secret-Keeps :
      (name namespace : Str) (content : List (Str × Str))
      → Keeps P (create_owned_secret cluster name namespace content)
  unfolding create_owned_secret
  create_owned_secret-Keeps name namespace content =
      Keeps-bind P (cluster.set_controller_reference name) _ (frame.set_controller_reference name)
        (λ a. frame.create_secret namespace name content)

  pub has_server_group-Keeps : (name : Str) → Keeps P (has_server_group cluster name)
  unfolding has_server_group
  has_server_group-Keeps name w p = frame.server_groups w p

  when_crd_available-Keeps :
      (namespace : Str) (b : Bool) → Keeps P (when_crd_available cluster namespace b)
  unfolding when_crd_available
  when_crd_available-Keeps namespace false w p = p
  when_crd_available-Keeps namespace true w p = frame.get_deployment namespace _ w p

  pub is_infinispan_operator_available-Keeps :
      (namespace : Str) → Keeps P (is_infinispan_operator_available cluster namespace)
  unfolding is_infinispan_operator_available
  is_infinispan_operator_available-Keeps namespace =
      Keeps-bind P (has_server_group cluster infinispan_server_group)
        (when_crd_available cluster namespace) (has_server_group-Keeps infinispan_server_group)
        (when_crd_available-Keeps namespace)

  shared_configuration-Keeps :
      (namespace : Str) (r : Result Secret) → Keeps P (shared_configuration cluster namespace r)
  unfolding shared_configuration
  shared_configuration-Keeps namespace (ok secret) w p = p
  shared_configuration-Keeps namespace (err e) w p = frame.get_secret namespace _ w p

  pub credentials-Keeps : (vdb : VirtualDatabase) → Keeps P (credentials cluster vdb)
  unfolding credentials
  credentials-Keeps vdb w p =
      let own : Result Secret × W =
        cluster.get_secret vdb.namespace (vdb.name ++ codes "-cache-store") w in
      Keeps-bind P (shared_configuration cluster vdb.namespace own.0) _
        (shared_configuration-Keeps vdb.namespace own.0) (λ secret w p. p) own.1
        (frame.get_secret vdb.namespace _ w p)

  revisions-Keeps :
      (namespace : Str) (envs : List EnvVar) (written : Str)
      → Keeps P (revisions cluster namespace envs written)
  unfolding revisions
  revisions-Keeps namespace [] written = λ w p. p
  revisions-Keeps namespace (env ∷ envs) written =
      Keeps-bind P (revision_of_config_map_or_secret cluster namespace env) _
        (revision-Keeps namespace env) (λ str. revisions-Keeps namespace envs (written ++ str))

  source_revisions-Keeps :
      (namespace : Str) (sources : List DataSourceObject) (written : Str)
      → Keeps P (source_revisions cluster namespace sources written)
  unfolding source_revisions
  source_revisions-Keeps namespace [] written = λ w p. p
  source_revisions-Keeps namespace (ds ∷ rest) written =
      Keeps-bind P (revisions cluster namespace ds.properties (written ++ ds.name)) _
        (revisions-Keeps namespace ds.properties (written ++ ds.name))
        (λ written'. source_revisions-Keeps namespace rest written')

  pub compute_config_digest-Keeps :
      (vdb : VirtualDatabase) → Keeps P (compute_config_digest cluster vdb)
  unfolding compute_config_digest
  compute_config_digest-Keeps vdb =
      Keeps-bind P (revisions cluster vdb.namespace vdb.spec.env []) _
        (revisions-Keeps vdb.namespace vdb.spec.env [])
        (λ written.
          Keeps-bind P (source_revisions cluster vdb.namespace vdb.spec.data_sources written) _
            (source_revisions-Keeps vdb.namespace vdb.spec.data_sources written)
            (λ written' w p. p))
