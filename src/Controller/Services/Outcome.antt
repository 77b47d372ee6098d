-- ===== src/Controller/Services/Outcome.antt =====
-- What create-service.go of pkg/controller/virtualdatabase leaves of a resource.
use teiid_operator.Prelude.{◌≡◌, refl, List, [], ◌∷◌, ◌++◌, Bool, true, false, Option, none, some}
use teiid_operator.Text.{Str, codes}
use teiid_operator.Result.{Result, ok, err, is_ok, not_found, conflict, panic, failed}
use teiid_operator.Vdb.{
  VirtualDatabase, ExposeType, load_balancer, node_port, route, expose_via_3scale, service_created,
}
use teiid_operator.Controller.Cluster.{
  Cluster, Context, Service, ServiceType, Route, Secret, ConsoleLink,
}
use teiid_operator.Controller.ConsoleLinks.{
  update_link, corrected_link, check_console_link, ensure_console_link, console_link_name,
}
use teiid_operator.Controller.Services.{
  create_internal_service, create_external_service, create_route,
}
use teiid_operator.Controller.Services.Handle.{
  note_failure, expose_service, expose_services, link_route, publish_route, when_route_wanted,
  when_service_created, unless_served, create_service_handle,
}
use teiid_operator.Controller.Transitions.Ends.{Finishes, Finishes-bind}

-- What create-service.go leaves of a resource: all but the phase, the failure and the route.
abbrev pub Served : VirtualDatabase → VirtualDatabase → Type 0
Served u v =
    (v.name ≡ u.name)
    × (v.namespace ≡ u.namespace)
    × (v.spec ≡ u.spec)
    × (v.status.digest ≡ u.status.digest)

module _ {W : Type 0} (cluster : Cluster W) where
  update_link_ok : (link : Option ConsoleLink) (w : W) → is_ok (update_link cluster link w).0 ≡ true
  unfolding update_link
  update_link_ok none w = refl
  update_link_ok (some link) w = refl

  check_console_link_ok :
      (found : Route) (name namespace : Str) (r : Result ConsoleLink) (w : W)
      → is_ok (check_console_link cluster found name namespace r w).0 ≡ true
  unfolding check_console_link
  check_console_link_ok found name namespace (ok link) w =
      update_link_ok (corrected_link found link) w
  check_console_link_ok found name namespace (err not_found) w = refl
  check_console_link_ok found name namespace (err conflict) w = refl
  check_console_link_ok found name namespace (err panic) w = refl
  check_console_link_ok found name namespace (err (failed text)) w = refl

  ensure_console_link_ok :
      (found : Option Route) (name namespace : Str) (w : W)
      → is_ok (ensure_console_link cluster found name namespace w).0 ≡ true
  unfolding ensure_console_link
  ensure_console_link_ok none name namespace w = refl
  ensure_console_link_ok (some found) name namespace w =
      let asked : Result ConsoleLink × W =
        cluster.get_console_link (console_link_name name namespace) w in
      check_console_link_ok found name namespace asked.0 asked.1

  note_failure-Served :
      {A : Type 0} (u : VirtualDatabase) (m : Str) (r : Result A) (s : Context W)
      → Served u s.vdb
      → Finishes (Served u) (note_failure cluster m r s)
  unfolding note_failure
  note_failure-Served u m (ok _) s h = (refl, h)
  note_failure-Served u m (err _) s h = (refl, h)

  expose_service-Served :
      (u : VirtualDatabase) (t : ServiceType) (m : Str) (s : Context W)
      → Served u s.vdb
      → Finishes (Served u) (expose_service cluster t m s)
  unfolding expose_service
  expose_service-Served u t m s h =
      let made : Result Service × W =
        create_external_service cluster s.vdb (s.vdb.name ++ codes "-external") t s.world in
      note_failure-Served u m made.0 (record s { world = made.1 }) h

  expose_services-Served :
      (u : VirtualDatabase) (es : List ExposeType) (wanted : Bool) (s : Context W)
      → Served u s.vdb
      → Finishes (Served u) (expose_services cluster es wanted s)
  unfolding expose_services
  expose_services-Served u [] wanted s h = (refl, h)
  expose_services-Served u (load_balancer ∷ es) wanted s h =
      Finishes-bind (Served u) (Served u) (expose_service cluster _ _) _ s
        (expose_service-Served u _ _ s h) (λ _ t p. expose_services-Served u es wanted t p)
  expose_services-Served u (node_port ∷ es) wanted s h =
      Finishes-bind (Served u) (Served u) (expose_service cluster _ _) _ s
        (expose_service-Served u _ _ s h) (λ _ t p. expose_services-Served u es wanted t p)
  expose_services-Served u (expose_via_3scale ∷ es) wanted s h =
      expose_services-Served u es false s h
  expose_services-Served u (route ∷ es) wanted s h = expose_services-Served u es true s h

  link_route-Served :
      (u : VirtualDatabase) (found : Route) (r : Result (Unit {0})) (s : Context W)
      → Served u s.vdb
      → Finishes (Served u) (link_route cluster found r s)
  unfolding link_route
  link_route-Served u found (ok _) s h =
      (ensure_console_link_ok (some found) s.vdb.name s.vdb.namespace s.world, h)
  link_route-Served u found (err _) s h = (refl, h)

  publish_route-Served :
      (u : VirtualDatabase) (r : Result Route) (s : Context W)
      → Served u s.vdb
      → Finishes (Served u) (publish_route cluster r s)
  unfolding publish_route
  publish_route-Served u (ok found) s h =
      let asked : Result (Unit {0}) × W = cluster.console_link_exists s.world in
      link_route-Served u found asked.0 _ h
  publish_route-Served u (err _) s h = (refl, h)

  when_route_wanted-Served :
      (u : VirtualDatabase) (service : Service) (wanted : Bool) (s : Context W)
      → Served u s.vdb
      → Finishes (Served u) (when_route_wanted cluster service wanted s)
  unfolding when_route_wanted
  when_route_wanted-Served u service true s h =
      let made : Result Route × W = create_route cluster service s.world in
      publish_route-Served u made.0 (record s { world = made.1 }) h
  when_route_wanted-Served u service false s h = (refl, h)

  when_service_created-Served :
      (u : VirtualDatabase) (r : Result Service) (s : Context W)
      → Served u s.vdb
      → Finishes (Served u) (when_service_created cluster r s)
  unfolding when_service_created
  when_service_created-Served u (err _) s h = (refl, h)
  when_service_created-Served u (ok service) s h =
      Finishes-bind (Served u) (Served u) (expose_services cluster s.vdb.spec.expose true) _ s
        (expose_services-Served u s.vdb.spec.expose true s h)
        (λ wanted t p. when_route_wanted-Served u service wanted t p)

  pub unless_served-Served :
      (has_cert : Bool) (r : Result (Unit {0})) (s : Context W)
      → Finishes (Served s.vdb) (unless_served cluster has_cert r s)
  unfolding unless_served
  unless_served-Served has_cert (ok _) s = (refl, (refl, refl, refl, refl))
  unless_served-Served has_cert (err _) s =
      let made : Result Service × W = create_internal_service cluster s.vdb has_cert s.world in
      when_service_created-Served s.vdb made.0 (record s { world = made.1 })
        (refl, refl, refl, refl)

  -- The step returns no error, whatever the calls of the cluster return, and it ends in the phase after it;
  -- name, namespace, specification and digest stay. So the error phase that a refused service or route
  -- writes on the way is lost, and of a failure its message alone is left.
  pub create_service_handle-Served :
      (s : Context W)
      → Finishes
          (λ v. Served s.vdb v × (v.status.phase ≡ service_created))
          (create_service_handle cluster s)
  unfolding create_service_handle
  create_service_handle-Served s =
      let secret : Result Secret × W = cluster.get_secret s.vdb.namespace s.vdb.name s.world in
      let found : Result (Unit {0}) × W = cluster.get_service s.vdb.namespace s.vdb.name secret.1 in
      Finishes-bind (λ v. Served s.vdb v × (v.status.phase ≡ service_created)) (Served s.vdb)
        (unless_served cluster (is_ok secret.0) found.0) _ (record s { world = found.1 })
        (unless_served-Served (is_ok secret.0) found.0 (record s { world = found.1 }))
        (λ _ t p. (refl, (p, refl)))
