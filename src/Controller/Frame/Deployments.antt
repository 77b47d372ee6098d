-- ===== src/Controller/Frame/Deployments.antt =====
-- Environments, key stores and the deployment: Controller/Environments.antt, Controller/Certificates.antt
-- and Controller/Deployment.antt.
use teiid_operator.Prelude.{List, [], ◌++◌, ◌==◌}
use teiid_operator.Text.{Str, text_Eq, codes}
use teiid_operator.Table.{lookup}
use teiid_operator.Result.{Result, ok, err}
use teiid_operator.Envvar.{EnvVar}
use teiid_operator.Vdb.{VirtualDatabase}
use teiid_operator.Vdbutil.{parse_data_sources_info_from_ddl}
use teiid_operator.Spring.Convert.{convert2_spring_properties}
use teiid_operator.Controller.Config.{Config, keystore_password}
use teiid_operator.Controller.Cluster.{Cluster, Deployment, Container, BuildConfig}
use teiid_operator.Controller.Kubernetes.{has_secret}
use teiid_operator.Controller.Ddl.{fetch_ddl}
use teiid_operator.Controller.Environments.{
  credentials_as_env, has_jaeger, traces, add_cache_store, deployment_environments,
  get_default_envs, add_tracing,
}
use teiid_operator.Controller.Certificates.{certificate_secret_name, entry_or_empty, create_stores}
use teiid_operator.Controller.Pods.{first_container, with_first}
use teiid_operator.Controller.Deployment.{find_dc, found_dc, build_deployment, update_image, deploy}
use teiid_operator.Controller.Frame.{Keeps, Frame, Keeps-bind, Keeps-continue, Keeps-if}
use teiid_operator.Controller.Frame.Reads.{has_secret-Keeps, create_owned_secret-Keeps}
use teiid_operator.Controller.Frame.Downloads.{fetch_ddl-Keeps}

module _ {W : Type 0} {P : W → Type 0} {cluster : Cluster W} (frame : Frame P cluster) where
  credentials_as_env-Keeps :
      (name namespace : Str) → Keeps P (credentials_as_env cluster name namespace)
  unfolding credentials_as_env
  credentials_as_env-Keeps name namespace =
      Keeps-bind P (has_secret cluster (name ++ codes "-cache-store") namespace) _
        (has_secret-Keeps frame (name ++ codes "-cache-store") namespace) (λ own w p. p)

  has_jaeger-Keeps : (namespace name : Str) → Keeps P (has_jaeger cluster namespace name)
  unfolding has_jaeger
  has_jaeger-Keeps namespace name w p = frame.list_jaegers namespace w p

  traces-Keeps : (vdb : VirtualDatabase) → Keeps P (traces cluster vdb)
  unfolding traces
  traces-Keeps vdb =
      Keeps-if P (vdb.spec.jaeger == []) _ _ (λ w p. p)
        (has_jaeger-Keeps vdb.namespace vdb.spec.jaeger)

  add_cache_store-Keeps :
      (vdb : VirtualDatabase) (envs : List EnvVar) → Keeps P (add_cache_store cluster vdb envs)
  unfolding add_cache_store
  add_cache_store-Keeps vdb envs =
      Keeps-if P (vdb.status.cache_store == []) _ _ (λ w p. p)
        (Keeps-bind P (credentials_as_env cluster vdb.name vdb.namespace) _
          (credentials_as_env-Keeps vdb.name vdb.namespace) (λ credentials w p. p))

  pub create_stores-Keeps : (vdb : VirtualDatabase) → Keeps P (create_stores cluster vdb)
  unfolding create_stores
  create_stores-Keeps vdb =
      Keeps-bind P (cluster.get_secret vdb.namespace (certificate_secret_name vdb)) _
        (frame.get_secret vdb.namespace (certificate_secret_name vdb))
        (λ certs w p.
          Keeps-continue P
            (cluster.create_pkcs12_keystore
              (entry_or_empty (lookup certs.data_map (codes "tls.crt")))
              (entry_or_empty (lookup certs.data_map (codes "tls.key"))) keystore_password)
            _ w p
            (λ keystore.
              Keeps-bind P cluster.read_service_ca _ frame.read_service_ca
                (λ trusted w p.
                  Keeps-continue P (cluster.create_pkcs12_truststore keystore_password trusted) _ w
                    p (λ truststore. create_owned_secret-Keeps frame _ _ _ w p))
                w p))

  pub find_dc-Keeps :
      (config : Config) (vdb : VirtualDatabase) → Keeps P (find_dc cluster config vdb)
  unfolding find_dc
  find_dc-Keeps config vdb = frame.get_deployment vdb.namespace vdb.name

  pub found_dc-Keeps :
      (config : Config) (vdb : VirtualDatabase) → Keeps P (found_dc cluster config vdb)
  unfolding found_dc
  found_dc-Keeps config vdb w p = find_dc-Keeps config vdb w p

module _ {W : Type 0} {P : W → Type 0} {cluster : Cluster W} (frame : Frame P cluster)
    (config : Config) where
  pub deployment_environments-Keeps :
      (vdb : VirtualDatabase) → Keeps P (deployment_environments cluster config vdb)
  unfolding deployment_environments
  deployment_environments-Keeps vdb =
      Keeps-bind P (fetch_ddl cluster config vdb (codes "/tmp/teiid.vdb")) _
        (fetch_ddl-Keeps frame config vdb (codes "/tmp/teiid.vdb"))
        (λ ddl w p.
          Keeps-continue P
            (convert2_spring_properties config.connection_factories vdb.spec.data_sources
              (parse_data_sources_info_from_ddl ddl))
            _ w p
            (λ data_source_config.
              Keeps-bind P (traces cluster vdb) _ (traces-Keeps frame vdb)
                (λ jaeger.
                  Keeps-bind P
                    (add_cache_store cluster vdb (
                      add_tracing cluster vdb (get_default_envs cluster.environ vdb.spec.env)
                        jaeger))
                    _
                    (add_cache_store-Keeps frame vdb (
                      add_tracing cluster vdb (get_default_envs cluster.environ vdb.spec.env)
                        jaeger))
                    (λ cached w p. p))
                w p))

  build_deployment-Keeps :
      (vdb : VirtualDatabase) (bc : BuildConfig) → Keeps P (build_deployment cluster config vdb bc)
  unfolding build_deployment
  build_deployment-Keeps vdb bc =
      Keeps-bind P (deployment_environments cluster config vdb) _
        (deployment_environments-Keeps vdb)
        (λ envs. Keeps-bind P (traces cluster vdb) _ (traces-Keeps frame vdb) (λ jaeger.
          Keeps-bind P (cluster.set_controller_reference vdb.name) _
            (frame.set_controller_reference vdb.name) (λ a w p. p)))

  update_image-Keeps :
      (existing : Deployment) (c : Container) (bc : BuildConfig)
      → Keeps P (update_image cluster config existing c bc)
  unfolding update_image
  update_image-Keeps existing c bc =
      Keeps-if P (c.image == bc.output_to) _ _ (λ w p. p)
        (λ w p.
          Keeps-continue P (with_first (λ x. record x { image = bc.output_to }) existing)
            cluster.update_deployment w p (λ d. frame.update_deployment d w p))

  pub deploy-Keeps :
      (vdb : VirtualDatabase) (bc : BuildConfig) (r : Result Deployment)
      → Keeps P (deploy cluster config vdb bc r)
  unfolding deploy
  deploy-Keeps vdb bc (ok existing) = λ w p.
      Keeps-continue P (first_container existing) _ w p (λ c. update_image-Keeps existing c bc w p)
  deploy-Keeps vdb bc (err e) =
      Keeps-bind P (build_deployment cluster config vdb bc) cluster.create_deployment
        (build_deployment-Keeps vdb bc) frame.create_deployment
