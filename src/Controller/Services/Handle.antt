-- ===== src/Controller/Services/Handle.antt =====
-- createServiceAction.Handle of pkg/controller/virtualdatabase/create-service.go.
use teiid_operator.Prelude.{Bool, true, false, some, List, [], ◌∷◌, ◌++◌}
use teiid_operator.Text.{Str, codes}
use teiid_operator.Result.{Result, ok, err, is_ok}
use teiid_operator.Exec.{Exec, pure, gets, attempt, ◌>>=◌, ◌>>◌}
use teiid_operator.Vdb.{
  VirtualDatabase, ExposeType, load_balancer, node_port, route, expose_via_3scale, service_created,
  error as phase_error,
}
use teiid_operator.Controller.Cluster.{
  Cluster, Context, Service, ServiceType, Route, load_balancer_type, node_port_type, call,
}
use teiid_operator.Controller.Services.{
  create_internal_service, create_external_service, create_route,
}
use teiid_operator.Controller.ConsoleLinks.{ensure_console_link}
use teiid_operator.Controller.Initialize.{with_failure}
use teiid_operator.Controller.Actions.{Action, create_service_can_handle, with_phase, edit}

abbrev pub with_error : Str → VirtualDatabase → VirtualDatabase
with_error message vdb = with_failure message (with_phase phase_error vdb)

abbrev pub with_route : Str → VirtualDatabase → VirtualDatabase
with_route url vdb = record vdb { status = record vdb.status { route = url } }

abbrev pub route_url : Route → Str
route_url found = codes "https://" ++ found.host ++ codes "/odata"

module _ {W : Type 0} (cluster : Cluster W) where
  -- An error of a call writes the error phase and a message.
  unfoldable pub note_failure : {A : Type 0} → Str → Result A → Exec (Context W) (Unit {0})
  note_failure message (ok _) = pure tt
  note_failure message (err _) = edit (with_error message)

  unfoldable pub expose_service : ServiceType → Str → Exec (Context W) (Unit {0})
  unfolding create_external_service note_failure
  expose_service type message = do
    vdb ← gets (λ s. s.vdb)
    r ← attempt (call (create_external_service cluster vdb (vdb.name ++ codes "-external") type))
    note_failure message r

  -- The loop over the ways of exposing the database. The Boolean says whether a route is wanted: the last
  -- entry that says something about it decides.
  unfoldable pub expose_services : List ExposeType → Bool → Exec (Context W) Bool
  unfolding expose_service
  expose_services [] wanted = pure wanted
  expose_services (load_balancer ∷ rest) wanted = do
    expose_service load_balancer_type (codes "Failed to create External LoadBalancer Service")
    expose_services rest wanted
  expose_services (node_port ∷ rest) wanted = do
    expose_service node_port_type (codes "Failed to create External NodePort Service")
    expose_services rest wanted
  expose_services (expose_via_3scale ∷ rest) wanted = expose_services rest false
  expose_services (route ∷ rest) wanted = expose_services rest true

  unfoldable pub link_route : Route → Result (Unit {0}) → Exec (Context W) (Unit {0})
  unfolding ensure_console_link
  link_route found (ok _) = do
    vdb ← gets (λ s. s.vdb)
    call (ensure_console_link cluster (some found) vdb.name vdb.namespace)
  link_route found (err _) = pure tt

  unfoldable pub publish_route : Result Route → Exec (Context W) (Unit {0})
  unfolding link_route
  publish_route (err _) = edit (with_error (codes "Failed to create route"))
  publish_route (ok found) = do
    edit (with_route (route_url found))
    r ← attempt (call cluster.console_link_exists)
    link_route found r

  unfoldable pub when_route_wanted : Service → Bool → Exec (Context W) (Unit {0})
  unfolding create_route publish_route
  when_route_wanted service true = do
    r ← attempt (call (create_route cluster service))
    publish_route r
  when_route_wanted service false = pure tt

  unfoldable pub when_service_created : Result Service → Exec (Context W) (Unit {0})
  unfolding expose_services when_route_wanted
  when_service_created (err _) = edit (with_error (codes "Failed to create Service"))
  when_service_created (ok service) = do
    vdb ← gets (λ s. s.vdb)
    wanted ← expose_services vdb.spec.expose true
    when_route_wanted service wanted

  unfoldable pub unless_served : Bool → Result (Unit {0}) → Exec (Context W) (Unit {0})
  unfolding create_internal_service when_service_created
  unless_served has_cert_secret (ok _) = pure tt
  unless_served has_cert_secret (err _) = do
    vdb ← gets (λ s. s.vdb)
    r ← attempt (call (create_internal_service cluster vdb has_cert_secret))
    when_service_created r

  unfoldable pub create_service_handle : Exec (Context W) (Unit {0})
  unfolding unless_served
  create_service_handle = do
    vdb ← gets (λ s. s.vdb)
    secret ← attempt (call (cluster.get_secret vdb.namespace vdb.name))
    served ← attempt (call (cluster.get_service vdb.namespace vdb.name))
    unless_served (is_ok secret) served
    edit (with_phase service_created)

  unfoldable pub create_service_action : Action W
  create_service_action = record {
    can_handle = λ vdb. create_service_can_handle vdb.status.phase;
    handle = create_service_handle;
  }
