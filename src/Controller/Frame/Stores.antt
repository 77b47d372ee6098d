-- ===== src/Controller/Frame/Stores.antt =====
-- Image streams, settings, passwords, cache stores and monitors: Controller/Images.antt, Password.antt,
-- Controller/CacheStore.antt and Controller/Monitor.antt.
use teiid_operator.Prelude.{ℕ, zero, suc, Bool, true, false, List, [], ◌∷◌, length}
use teiid_operator.Text.{Str, codes}
use teiid_operator.Result.{Result, ok, err, not_found, conflict, panic, failed}
use teiid_operator.Exec.{Exec}
use teiid_operator.Password.{
  all, digits, all_nonempty, digits_nonempty, draw_rest, draw_buffer, random_password,
}
use teiid_operator.Vdb.{VirtualDatabase}
use teiid_operator.Maven.Types.{Repository}
use teiid_operator.Controller.Config.{Config}
use teiid_operator.Controller.Cluster.{Cluster, BuildConfig, draw_password}
use teiid_operator.Controller.Kubernetes.{has_secret, has_config_map, create_owned_secret}
use teiid_operator.Controller.Images.{
  check_image_stream, create_image_stream_for, create_local_image_stream, ensure_image_stream,
  ensure_build_config, own_settings, shared_settings, settings_named, read_maven_settings_file,
  stream_name,
}
use teiid_operator.Controller.Infinispan.{Details, is_infinispan_operator_available}
use teiid_operator.Controller.CacheStore.{
  ignore_cache_store, create_infinispan_cluster, create_new_cache_store, create_cache_store_secret,
  found_details, identities, identity_secret, cache_store_secret,
}
use teiid_operator.Controller.Monitor.{
  prometheus_config, has_prometheus, has_service_monitor, create_monitor, unless_monitored,
  when_prometheus,
}
use teiid_operator.Controller.Frame.{Keeps, Frame, Keeps-bind, Keeps-elim}
use teiid_operator.Controller.Frame.Reads.{
  succeeds-Keeps, has_secret-Keeps, has_config_map-Keeps, get_secret_ref_value-Keeps,
  get_config_map_ref_value-Keeps, create_owned_secret-Keeps, is_infinispan_operator_available-Keeps,
}

module _ {W : Type 0} {P : W → Type 0} {cluster : Cluster W} (frame : Frame P cluster) where
  pub check_image_stream-Keeps :
      (name namespace : Str) → Keeps P (check_image_stream cluster name namespace)
  unfolding check_image_stream
  check_image_stream-Keeps name namespace =
      succeeds-Keeps P (cluster.get_image_stream namespace (stream_name name))
        (frame.get_image_stream namespace (stream_name name))

  pub create_image_stream_for-Keeps :
      (name namespace image tag : Str)
      → Keeps P (create_image_stream_for cluster name namespace image tag)
  unfolding create_image_stream_for
  create_image_stream_for-Keeps name namespace image tag w p =
      frame.create_docker_image_stream _ _ _ _ w p

  create_local_image_stream-Keeps :
      (name namespace : Str) → Keeps P (create_local_image_stream cluster name namespace)
  unfolding create_local_image_stream
  create_local_image_stream-Keeps name namespace =
      Keeps-bind P (cluster.set_controller_reference (stream_name name)) _
        (frame.set_controller_reference (stream_name name))
        (λ a w p. frame.create_image_stream _ _ w p)

  pub ensure_image_stream-Keeps :
      (name namespace : Str) → Keeps P (ensure_image_stream cluster name namespace)
  unfolding ensure_image_stream
  ensure_image_stream-Keeps name namespace =
      Keeps-bind P (check_image_stream cluster name namespace) _
        (check_image_stream-Keeps name namespace)
        (λ b. Keeps-elim P b _ _ (λ w p. p) (create_local_image_stream-Keeps name namespace))

  pub ensure_build_config-Keeps :
      (wanted : BuildConfig) (r : Result BuildConfig)
      → Keeps P (ensure_build_config cluster wanted r)
  unfolding ensure_build_config
  ensure_build_config-Keeps wanted (ok bc) w p = p
  ensure_build_config-Keeps wanted (err not_found) w p =
      frame.create_build_config wanted _ (frame.set_controller_reference wanted.name w p)
  ensure_build_config-Keeps wanted (err conflict) w p = p
  ensure_build_config-Keeps wanted (err panic) w p = p
  ensure_build_config-Keeps wanted (err (failed t)) w p = p

  settings_named-Keeps :
      (namespace name : Str) (otherwise : Exec W Str)
      → Keeps P otherwise
      → Keeps P (settings_named cluster namespace name otherwise)
  unfolding settings_named
  settings_named-Keeps namespace name otherwise k =
      Keeps-bind P (has_secret cluster name namespace) _ (has_secret-Keeps frame name namespace)
        (λ b. Keeps-elim P b _ _ (get_secret_ref_value-Keeps frame namespace _) (
          Keeps-bind P (has_config_map cluster name namespace) _
            (has_config_map-Keeps frame name namespace)
            (λ c. Keeps-elim P c _ _ (get_config_map_ref_value-Keeps frame namespace _) k)))

  pub read_maven_settings_file-Keeps :
      (vdb : VirtualDatabase) (repositories : List Repository)
      → Keeps P (read_maven_settings_file cluster vdb repositories)
  unfolding read_maven_settings_file
  read_maven_settings_file-Keeps vdb repositories =
      settings_named-Keeps vdb.namespace (own_settings cluster vdb) _
        (settings_named-Keeps vdb.namespace (shared_settings cluster) _ (λ w p. p))

  draw_rest-Keeps : (k : ℕ) (w : W) → P w → P (draw_rest cluster.random k w).1
  unfolding draw_rest
  draw_rest-Keeps zero w p = p
  draw_rest-Keeps (suc k) w p = draw_rest-Keeps k _ (frame.intn (length all) all_nonempty w p)

  pub draw_password-Keeps : Keeps P (draw_password cluster)
  unfolding draw_password random_password draw_buffer
  draw_password-Keeps w p =
      frame.shuffle _ _ (draw_rest-Keeps 7 _ (frame.intn (length digits) digits_nonempty w p))

  pub ignore_cache_store-Keeps : (vdb : VirtualDatabase) → Keeps P (ignore_cache_store cluster vdb)
  unfolding ignore_cache_store
  ignore_cache_store-Keeps vdb =
      Keeps-bind P (is_infinispan_operator_available cluster vdb.namespace) _
        (is_infinispan_operator_available-Keeps frame vdb.namespace) (λ there w p. p)

  create_infinispan_cluster-Keeps :
      (ispn : Details) → Keeps P (create_infinispan_cluster cluster ispn)
  unfolding create_infinispan_cluster
  create_infinispan_cluster-Keeps ispn w p =
      let drawn : Str × W = random_password cluster.random w in
      let content : List (Str × Str) = (codes "identities.yaml", identities ispn drawn.0) ∷ [] in
      Keeps-bind P (create_owned_secret cluster (identity_secret ispn) ispn.namespace content) _
        (create_owned_secret-Keeps frame (identity_secret ispn) ispn.namespace content)
        (λ a w p. frame.create_infinispan _ _ (frame.set_controller_reference ispn.name w p))
        drawn.1 (draw_password-Keeps w p)

  pub create_new_cache_store-Keeps :
      (ispn : Details) → Keeps P (create_new_cache_store cluster ispn)
  unfolding create_new_cache_store
  create_new_cache_store-Keeps ispn =
      Keeps-bind P (is_infinispan_operator_available cluster ispn.namespace) _
        (is_infinispan_operator_available-Keeps frame ispn.namespace)
        (λ b. Keeps-elim P b _ _ (create_infinispan_cluster-Keeps ispn) (λ w p. p))

  pub create_cache_store_secret-Keeps :
      (ispn : Details) → Keeps P (create_cache_store_secret cluster ispn)
  unfolding create_cache_store_secret
  create_cache_store_secret-Keeps ispn =
      create_owned_secret-Keeps frame ispn.name ispn.namespace (cache_store_secret ispn)

  pub found_details-Keeps :
      (vdb : VirtualDatabase) (r : Result Details) → Keeps P (found_details cluster vdb r)
  unfolding found_details
  found_details-Keeps vdb (ok d) w p = p
  found_details-Keeps vdb (err e) w p = draw_password-Keeps w p

  pub prometheus_config-Keeps : (namespace : Str) → Keeps P (prometheus_config cluster namespace)
  unfolding prometheus_config
  prometheus_config-Keeps namespace w p = frame.get_config_map namespace _ w p

module _ {W : Type 0} {P : W → Type 0} {cluster : Cluster W} (frame : Frame P cluster)
    (config : Config) where
  pub has_prometheus-Keeps : (vdb : VirtualDatabase) → Keeps P (has_prometheus cluster config vdb)
  unfolding has_prometheus
  has_prometheus-Keeps vdb w p = frame.list_prometheus_selectors vdb.namespace w p

  has_service_monitor-Keeps :
      (vdb : VirtualDatabase) → Keeps P (has_service_monitor cluster config vdb)
  unfolding has_service_monitor
  has_service_monitor-Keeps vdb w p = frame.list_service_monitors vdb.namespace w p

  unless_monitored-Keeps :
      (vdb : VirtualDatabase) (b : Bool) → Keeps P (unless_monitored cluster config vdb b)
  unfolding unless_monitored create_monitor
  unless_monitored-Keeps vdb true w p = p
  unless_monitored-Keeps vdb false w p =
      frame.create_service_monitor _ _ (frame.set_controller_reference vdb.name w p)

  pub when_prometheus-Keeps :
      (vdb : VirtualDatabase) (b : Bool) → Keeps P (when_prometheus cluster config vdb b)
  unfolding when_prometheus
  when_prometheus-Keeps vdb true =
      Keeps-bind P (has_service_monitor cluster config vdb) (unless_monitored cluster config vdb)
        (has_service_monitor-Keeps vdb) (unless_monitored-Keeps vdb)
  when_prometheus-Keeps vdb false = λ w p. p
