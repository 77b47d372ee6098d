-- ===== src/Controller/Services.antt =====
-- Services and routes, pkg/controller/virtualdatabase/create-service.go.
pub mod Handle
pub mod Outcome
use teiid_operator.Prelude.{
  ℕ, zero, suc, Bool, true, false, List, [], ◌∷◌, ◌++◌, ◌==◌, map, if◌then◌else◌,
}
use teiid_operator.Text.{Str, text_Eq, codes}
use teiid_operator.Table.{put}
use teiid_operator.Result.{Err, Result, ok, err, not_found}
use teiid_operator.Exec.{Exec, pure, raise, attempt, ◌>>=◌, ◌>>◌}
use teiid_operator.Vdb.{VirtualDatabase}
use teiid_operator.Controller.Cluster.{
  Cluster, Service, ServicePort, ServiceType, cluster_ip, Route, ContainerPort, pause,
}
use teiid_operator.Controller.Kubernetes.{ensure_object}
use teiid_operator.Controller.Certificates.{certificate_secret_name}
use teiid_operator.Controller.Pods.{container_ports, get_exposed_port, match_labels_of}

unfoldable pub service_port : ContainerPort → ServicePort
unfolding get_exposed_port
service_port p = record { name = p.name; port = get_exposed_port p; target_port = p.container_port }

unfoldable pub service_ports : Bool → List ServicePort
unfolding service_port container_ports
service_ports external_only = map service_port (container_ports external_only)

unfoldable pub api_link : VirtualDatabase → Str
api_link vdb =
    if vdb.spec.build.source.open_api == []
    then codes "/odata/openapi.json"
    else codes "/openapi.json"

-- A certificate is asked for where the user brought none.
unfoldable pub service_annotations : VirtualDatabase → Bool → List (Str × Str)
unfolding api_link
service_annotations vdb has_cert_secret =
    (codes "discovery.3scale.net/scheme", codes "http")
    ∷ (codes "discovery.3scale.net/port", codes "8080")
    ∷ (codes "discovery.3scale.net/description-path", api_link vdb)
    ∷ (if has_cert_secret
        then []
        else (
          codes "service.alpha.openshift.io/serving-cert-secret-name",
          certificate_secret_name vdb,
        )
          ∷ [])

unfoldable pub internal_service : VirtualDatabase → Bool → Service
unfolding service_annotations match_labels_of service_ports
internal_service vdb has_cert_secret = record {
  name = vdb.name;
  namespace = vdb.namespace;
  labels =
      (codes "app", vdb.name)
      ∷ (codes "discovery.3scale.net", codes "true")
      ∷ (codes "teiid.io/VirtualDatabase", vdb.name)
      ∷ (codes "teiid.io/type", codes "VirtualDatabase")
      ∷ (codes "teiid.io/deployment-version", vdb.status.version)
      ∷ [];
  annotations = service_annotations vdb has_cert_secret;
  selector = match_labels_of vdb.name;
  type = cluster_ip;
  ports = service_ports false;
}

unfoldable pub external_service : VirtualDatabase → Str → ServiceType → Service
unfolding match_labels_of service_ports
external_service vdb name type = record {
  name = name;
  namespace = vdb.namespace;
  labels = match_labels_of vdb.name;
  annotations = [];
  selector = match_labels_of vdb.name;
  type = type;
  ports = service_ports true;
}

-- The route has the metadata of the service; the API server chooses its host.
unfoldable pub route_of : Service → Route
unfolding put
route_of service = record {
  name = service.name;
  namespace = service.namespace;
  labels = put service.labels (codes "teiid.io/api") (codes "odata");
  annotations = service.annotations;
  service = service.name;
  host = [];
}

module _ {W : Type 0} (cluster : Cluster W) where
  -- What both functions that create a service end with; a failed reference to the owner is only logged.
  unfoldable pub ensure_service : Service → Exec W Service
  unfolding ensure_object
  ensure_service service = do
    attempt (cluster.set_controller_reference service.name)
    r ← attempt (cluster.get_service service.namespace service.name)
    ensure_object cluster r (cluster.create_service service)
    pure service

  unfoldable pub create_internal_service : VirtualDatabase → Bool → Exec W Service
  unfolding ensure_service internal_service
  create_internal_service vdb has_cert_secret =
      ensure_service (internal_service vdb has_cert_secret)

  unfoldable pub create_external_service : VirtualDatabase → Str → ServiceType → Exec W Service
  unfolding ensure_service external_service
  create_external_service vdb name type = ensure_service (external_service vdb name type)

  -- The reads that wait for a route: as many as the number says, and one before them.
  unfoldable pub wait_for_route : ℕ → Str → Str → Exec W Route
  wait_for_route zero namespace name = do pause cluster; cluster.get_route namespace name
  wait_for_route (suc n) namespace name = do
    pause cluster
    r ← attempt (cluster.get_route namespace name)
    elim r [ ok route ↦ pure route | err _ ↦ wait_for_route n namespace name ]

  -- A route that is not found is created; whether that went well only the reads after it show.
  unfoldable pub ensure_route : Route → Result Route → Exec W (Unit {0})
  unfolding ensure_object
  ensure_route route (err not_found) = do attempt (cluster.create_route route); pure tt
  ensure_route route _ = pure tt

  unfoldable pub create_route : Service → Exec W Route
  unfolding route_of ensure_route wait_for_route
  create_route service = do
    attempt (cluster.set_controller_reference service.name)
    r ← attempt (cluster.get_route service.namespace service.name)
    ensure_route (route_of service) r
    wait_for_route 58 service.namespace service.name
