-- ===== src/Controller/Frame/Late.antt =====
-- The handlers from the services on: Controller/Services/Handle.antt, Controller/Certificates.antt
-- and Controller/Monitor.antt.
use teiid_operator.Prelude.{Bool, true, false, some, List, [], ◌∷◌, ◌++◌}
use teiid_operator.Text.{Str, text_Eq, codes}
use teiid_operator.Result.{Result, ok, err, is_ok}
use teiid_operator.Vdb.{ExposeType, load_balancer, node_port, route, expose_via_3scale}
use teiid_operator.Controller.Config.{Config}
use teiid_operator.Controller.Cluster.{
  Cluster, Service, ServiceType, Route, Secret, load_balancer_type, node_port_type, call,
}
use teiid_operator.Controller.Services.{create_internal_service}
use teiid_operator.Controller.Services.Handle.{
  note_failure, expose_service, expose_services, link_route, publish_route, when_route_wanted,
  when_service_created, unless_served, create_service_handle,
}
use teiid_operator.Controller.Certificates.{create_stores, unless_stored, create_certificate_handle}
use teiid_operator.Controller.Monitor.{has_prometheus, when_prometheus, prometheus_monitor_handle}
use teiid_operator.Controller.Frame.{Keeps, OfWorld, Frame, Keeps-bind}
use teiid_operator.Controller.Frame.Early.{Keeps-call}
use teiid_operator.Controller.Frame.Objects.{
  ensure_console_link-Keeps, create_internal_service-Keeps, create_external_service-Keeps,
  create_route-Keeps,
}
use teiid_operator.Controller.Frame.Stores.{has_prometheus-Keeps, when_prometheus-Keeps}
use teiid_operator.Controller.Frame.Deployments.{create_stores-Keeps}

module _ {W : Type 0} {P : W → Type 0} {cluster : Cluster W} (frame : Frame P cluster) where
  note_failure-Keeps :
      {A : Type 0} (message : Str) (r : Result A)
      → Keeps (OfWorld P) (note_failure cluster message r)
  unfolding note_failure
  note_failure-Keeps message (ok a) s p = p
  note_failure-Keeps message (err e) s p = p

  expose_service-Keeps :
      (type : ServiceType) (message : Str) → Keeps (OfWorld P) (expose_service cluster type message)
  unfolding expose_service
  expose_service-Keeps type message s p =
      note_failure-Keeps message _ _
        (create_external_service-Keeps frame s.vdb (s.vdb.name ++ codes "-external") type s.world p)

  expose_services-Keeps :
      (ways : List ExposeType) (wanted : Bool)
      → Keeps (OfWorld P) (expose_services cluster ways wanted)
  unfolding expose_services
  expose_services-Keeps [] wanted = λ s p. p
  expose_services-Keeps (load_balancer ∷ rest) wanted =
      Keeps-bind (OfWorld P) (expose_service cluster load_balancer_type _) _
        (expose_service-Keeps load_balancer_type _) (λ a. expose_services-Keeps rest wanted)
  expose_services-Keeps (node_port ∷ rest) wanted =
      Keeps-bind (OfWorld P) (expose_service cluster node_port_type _) _
        (expose_service-Keeps node_port_type _) (λ a. expose_services-Keeps rest wanted)
  expose_services-Keeps (expose_via_3scale ∷ rest) wanted = expose_services-Keeps rest false
  expose_services-Keeps (route ∷ rest) wanted = expose_services-Keeps rest true

  link_route-Keeps :
      (found : Route) (r : Result (Unit {0})) → Keeps (OfWorld P) (link_route cluster found r)
  unfolding link_route
  link_route-Keeps found (ok a) s p =
      ensure_console_link-Keeps frame (some found) s.vdb.name s.vdb.namespace s.world p
  link_route-Keeps found (err e) s p = p

  publish_route-Keeps : (r : Result Route) → Keeps (OfWorld P) (publish_route cluster r)
  unfolding publish_route
  publish_route-Keeps (err e) s p = p
  publish_route-Keeps (ok found) s p =
      link_route-Keeps found _ _ (frame.console_link_exists s.world p)

  when_route_wanted-Keeps :
      (service : Service) (b : Bool) → Keeps (OfWorld P) (when_route_wanted cluster service b)
  unfolding when_route_wanted
  when_route_wanted-Keeps service true s p =
      publish_route-Keeps _ _ (create_route-Keeps frame service s.world p)
  when_route_wanted-Keeps service false s p = p

  when_service_created-Keeps :
      (r : Result Service) → Keeps (OfWorld P) (when_service_created cluster r)
  unfolding when_service_created
  when_service_created-Keeps (err e) = λ s p. p
  when_service_created-Keeps (ok service) = λ s p.
      Keeps-bind (OfWorld P) (expose_services cluster s.vdb.spec.expose true)
        (when_route_wanted cluster service) (expose_services-Keeps s.vdb.spec.expose true)
        (when_route_wanted-Keeps service) s p

  unless_served-Keeps :
      (b : Bool) (r : Result (Unit {0})) → Keeps (OfWorld P) (unless_served cluster b r)
  unfolding unless_served
  unless_served-Keeps b (ok a) s p = p
  unless_served-Keeps b (err e) s p =
      let made : Result Service × W = create_internal_service cluster s.vdb b s.world in
      when_service_created-Keeps made.0 (record s { world = made.1 })
        (create_internal_service-Keeps frame s.vdb b s.world p)

  pub create_service_handle-Keeps : Keeps (OfWorld P) (create_service_handle cluster)
  unfolding create_service_handle
  create_service_handle-Keeps s p =
      let secret : Result Secret × W = cluster.get_secret s.vdb.namespace s.vdb.name s.world in
      let served : Result (Unit {0}) × W =
        cluster.get_service s.vdb.namespace s.vdb.name secret.1 in
      Keeps-bind (OfWorld P) (unless_served cluster (is_ok secret.0) served.0) _
        (unless_served-Keeps (is_ok secret.0) served.0) (λ a s p. p) (record s { world = served.1 })
        (frame.get_service _ _ _ (frame.get_secret _ _ s.world p))

  unless_stored-Keeps : (r : Result Secret) → Keeps (OfWorld P) (unless_stored cluster r)
  unfolding unless_stored
  unless_stored-Keeps (ok secret) = λ s p. p
  unless_stored-Keeps (err e) = λ s p.
      Keeps-bind (OfWorld P) (call (create_stores cluster s.vdb)) _
        (Keeps-call P (create_stores cluster s.vdb) (create_stores-Keeps frame s.vdb)) (λ a s p. p)
        s p

  pub create_certificate_handle-Keeps : Keeps (OfWorld P) (create_certificate_handle cluster)
  unfolding create_certificate_handle
  create_certificate_handle-Keeps s p =
      unless_stored-Keeps _ _ (frame.get_secret s.vdb.namespace _ s.world p)

module _ {W : Type 0} {P : W → Type 0} {cluster : Cluster W} (frame : Frame P cluster)
    (config : Config) where
  pub prometheus_monitor_handle-Keeps : Keeps (OfWorld P) (prometheus_monitor_handle cluster config)
  unfolding prometheus_monitor_handle
  prometheus_monitor_handle-Keeps s p =
      Keeps-bind P (has_prometheus cluster config s.vdb) (when_prometheus cluster config s.vdb)
        (has_prometheus-Keeps frame config s.vdb) (when_prometheus-Keeps frame config s.vdb) s.world
        p
