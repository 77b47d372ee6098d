-- ===== src/Controller/Frame/Early.antt =====
-- The handlers up to the image of a service: Controller/Initialize.antt, Controller/CacheStore.antt,
-- Controller/BuilderImage.antt and Controller/ServiceImage.antt.
use teiid_operator.Prelude.{Bool, true, false, List, [], ◌∷◌}
use teiid_operator.Text.{Str}
use teiid_operator.Result.{Result, ok, err}
use teiid_operator.Exec.{Exec}
use teiid_operator.Vdb.{VirtualDatabase, DataSourceObject, Phase}
use teiid_operator.Vdb
use teiid_operator.Controller.Config.{Config}
use teiid_operator.Controller.Cluster.{Cluster, call}
use teiid_operator.Controller.Actions.{initialize_can_handle, with_phase}
use teiid_operator.Controller.Kubernetes.{
  environment_properties_exists, validate_environment_property_names,
}
use teiid_operator.Controller.Initialize.{
  sources_exist, write_config_digest, initialize, when_sources_exist, when_environment_exists,
  when_names_valid, when_initial, initialize_handle,
}
use teiid_operator.Controller.Infinispan.{Details, credentials}
use teiid_operator.Controller.CacheStore.{
  ignore_cache_store, found_details, record_cache_store, when_create, unless_ignored,
  cache_store_handle,
}
use teiid_operator.Controller.BuilderImage.{
  get_builds, prepare_builder, start_builder, monitor_builder, builder_image_step,
  s2i_builder_image_handle,
}
use teiid_operator.Controller.ServiceImage.{
  build_service_image, note_build, start_service_build, monitor_service_image, service_image_step,
  service_image_handle,
}
use teiid_operator.Controller.Frame.{
  Keeps, OfWorld, Frame, Keeps-bind, Keeps-elim, Keeps-if, Keeps-guarded,
}
use teiid_operator.Controller.Frame.Reads.{
  environment_properties_exists-Keeps, compute_config_digest-Keeps, credentials-Keeps,
}
use teiid_operator.Controller.Frame.Stores.{
  ignore_cache_store-Keeps, create_new_cache_store-Keeps, create_cache_store_secret-Keeps,
  found_details-Keeps,
}
use teiid_operator.Controller.Frame.Builds.{get_builds-Keeps}
use teiid_operator.Controller.Frame.ServiceBuilds.{prepare_builder-Keeps, build_service_image-Keeps}

module _ {W A : Type 0} (P : W → Type 0) where
  -- A call from a handler.
  pub Keeps-call : (m : Exec W A) → Keeps P m → Keeps (OfWorld P) (call m)
  Keeps-call m k s p = k s.world p

module _ {W : Type 0} {P : W → Type 0} {cluster : Cluster W} (frame : Frame P cluster) where
  sources_exist-Keeps :
      (namespace : Str) (sources : List DataSourceObject)
      → Keeps P (sources_exist cluster namespace sources)
  unfolding sources_exist
  sources_exist-Keeps namespace [] = λ w p. p
  sources_exist-Keeps namespace (ds ∷ rest) =
      Keeps-bind P (environment_properties_exists cluster namespace ds.properties) _
        (environment_properties_exists-Keeps frame namespace ds.properties)
        (λ b. Keeps-elim P b _ _ (sources_exist-Keeps namespace rest) (λ w p. p))

  write_config_digest-Keeps : (r : Result Str) → Keeps (OfWorld P) (write_config_digest cluster r)
  unfolding write_config_digest
  write_config_digest-Keeps (ok d) s p = p
  write_config_digest-Keeps (err e) s p = p

  initialize-Keeps : Keeps (OfWorld P) (initialize cluster)
  unfolding initialize
  initialize-Keeps s p = write_config_digest-Keeps _ _ (compute_config_digest-Keeps frame _ _ p)

  when_sources_exist-Keeps : (b : Bool) → Keeps (OfWorld P) (when_sources_exist cluster b)
  unfolding when_sources_exist
  when_sources_exist-Keeps true = initialize-Keeps
  when_sources_exist-Keeps false = λ s p. p

  when_environment_exists-Keeps : (b : Bool) → Keeps (OfWorld P) (when_environment_exists cluster b)
  unfolding when_environment_exists
  when_environment_exists-Keeps false = λ s p. p
  when_environment_exists-Keeps true = λ s p.
      Keeps-bind (OfWorld P) (call (sources_exist cluster s.vdb.namespace s.vdb.spec.data_sources))
        (when_sources_exist cluster)
        (Keeps-call P (sources_exist cluster s.vdb.namespace s.vdb.spec.data_sources)
          (sources_exist-Keeps s.vdb.namespace s.vdb.spec.data_sources))
        when_sources_exist-Keeps s p

  when_names_valid-Keeps : (r : Result (Unit {0})) → Keeps (OfWorld P) (when_names_valid cluster r)
  unfolding when_names_valid
  when_names_valid-Keeps (err e) = λ s p. p
  when_names_valid-Keeps (ok a) = λ s p.
      Keeps-bind (OfWorld P)
        (call (environment_properties_exists cluster s.vdb.namespace s.vdb.spec.env))
        (when_environment_exists cluster)
        (Keeps-call P (environment_properties_exists cluster s.vdb.namespace s.vdb.spec.env)
          (environment_properties_exists-Keeps frame s.vdb.namespace s.vdb.spec.env))
        when_environment_exists-Keeps s p

  when_initial-Keeps : (b : Bool) → Keeps (OfWorld P) (when_initial cluster b)
  unfolding when_initial
  when_initial-Keeps true =
      λ s p. when_names_valid-Keeps (validate_environment_property_names s.vdb.spec.env) s p
  when_initial-Keeps false = λ s p. p

  pub initialize_handle-Keeps : Keeps (OfWorld P) (initialize_handle cluster)
  unfolding initialize_handle
  initialize_handle-Keeps s p = when_initial-Keeps (initialize_can_handle s.vdb.status.phase) s p

  record_cache_store-Keeps :
      (d : Details) (b : Bool) (r : Result (Unit {0}))
      → Keeps (OfWorld P) (record_cache_store cluster d b r)
  unfolding record_cache_store
  record_cache_store-Keeps d b (err e) s p = p
  record_cache_store-Keeps d true (ok a) s p = p
  record_cache_store-Keeps d false (ok a) s p = create_cache_store_secret-Keeps frame d s.world p

  when_create-Keeps : (found : Details × Bool) → Keeps (OfWorld P) (when_create cluster found)
  unfolding when_create
  when_create-Keeps (d, b) =
      Keeps-if (OfWorld P) d.create_if_not_found _ _
        (λ s p. record_cache_store-Keeps d b _ _ (create_new_cache_store-Keeps frame d s.world p))
        (λ s p. p)

  unless_ignored-Keeps : (b : Bool) → Keeps (OfWorld P) (unless_ignored cluster b)
  unfolding unless_ignored
  unless_ignored-Keeps true = λ s p. p
  unless_ignored-Keeps false = λ s p.
      let read : Result Details × W = credentials cluster s.vdb s.world in
      Keeps-bind (OfWorld P) (call (found_details cluster s.vdb read.0)) _
        (Keeps-call P (found_details cluster s.vdb read.0) (found_details-Keeps frame s.vdb read.0))
        (λ d. Keeps-bind (OfWorld P) (when_create cluster d) _ (when_create-Keeps d) (λ a s p. p))
        (record s { world = read.1 }) (credentials-Keeps frame s.vdb s.world p)

  pub cache_store_handle-Keeps : Keeps (OfWorld P) (cache_store_handle cluster)
  unfolding cache_store_handle
  cache_store_handle-Keeps s p =
      Keeps-bind (OfWorld P) (call (ignore_cache_store cluster s.vdb)) (unless_ignored cluster)
        (Keeps-call P (ignore_cache_store cluster s.vdb) (ignore_cache_store-Keeps frame s.vdb))
        unless_ignored-Keeps s p

module _ {W : Type 0} {P : W → Type 0} {cluster : Cluster W} (frame : Frame P cluster)
    (config : Config) where
  start_builder-Keeps : Keeps (OfWorld P) (start_builder cluster config)
  unfolding start_builder
  start_builder-Keeps s p =
      Keeps-bind (OfWorld P) (call (prepare_builder cluster config s.vdb)) _
        (Keeps-call P (prepare_builder cluster config s.vdb)
          (prepare_builder-Keeps frame config s.vdb))
        (λ a s p. p) s p

  monitor_builder-Keeps : Keeps (OfWorld P) (monitor_builder cluster config)
  unfolding monitor_builder
  monitor_builder-Keeps s p =
      Keeps-bind (OfWorld P) (call (get_builds cluster config s.vdb)) _
        (Keeps-call P (get_builds cluster config s.vdb) (get_builds-Keeps frame config s.vdb))
        (λ a s p. p) s p

  builder_image_step-Keeps : (q : Phase) → Keeps (OfWorld P) (builder_image_step cluster config q)
  unfolding builder_image_step
  builder_image_step-Keeps Vdb.s2i_ready = start_builder-Keeps
  builder_image_step-Keeps Vdb.builder_image = monitor_builder-Keeps
  builder_image_step-Keeps _ = λ s p. p

  pub s2i_builder_image_handle-Keeps : Keeps (OfWorld P) (s2i_builder_image_handle cluster config)
  unfolding s2i_builder_image_handle
  s2i_builder_image_handle-Keeps s p = builder_image_step-Keeps s.vdb.status.phase s p

  note_build-Keeps : (r : Result (Unit {0})) → Keeps (OfWorld P) (note_build cluster config r)
  unfolding note_build
  note_build-Keeps (ok a) s p = p
  note_build-Keeps (err e) s p = p

  start_service_build-Keeps : Keeps (OfWorld P) (start_service_build cluster config)
  unfolding start_service_build
  start_service_build-Keeps s p =
      let noted : VirtualDatabase = with_phase Vdb.service_image s.vdb in
      Keeps-guarded (OfWorld P) (call (build_service_image cluster config noted))
        (note_build cluster config)
        (Keeps-call P (build_service_image cluster config noted)
          (build_service_image-Keeps frame config noted))
        note_build-Keeps (record s { vdb = noted }) p

  monitor_service_image-Keeps : Keeps (OfWorld P) (monitor_service_image cluster config)
  unfolding monitor_service_image
  monitor_service_image-Keeps s p =
      Keeps-bind (OfWorld P) (call (cluster.list_builds s.vdb.namespace s.vdb.name)) _
        (Keeps-call P (cluster.list_builds s.vdb.namespace s.vdb.name)
          (frame.list_builds s.vdb.namespace s.vdb.name))
        (λ a s p. p) s p

  service_image_step-Keeps : (q : Phase) → Keeps (OfWorld P) (service_image_step cluster config q)
  unfolding service_image_step
  service_image_step-Keeps Vdb.builder_image_finished = start_service_build-Keeps
  service_image_step-Keeps Vdb.service_image = monitor_service_image-Keeps
  service_image_step-Keeps _ = λ s p. p

  pub service_image_handle-Keeps : Keeps (OfWorld P) (service_image_handle cluster config)
  unfolding service_image_handle
  service_image_handle-Keeps s p = service_image_step-Keeps s.vdb.status.phase s p
