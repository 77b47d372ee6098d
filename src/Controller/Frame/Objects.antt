-- ===== src/Controller/Frame/Objects.antt =====
-- What the operator creates: Controller/ConsoleLinks.antt, Controller/Services.antt, Controller/Images.antt,
-- Controller/Monitor.antt and Controller/CacheStore.antt.
use teiid_operator.Prelude.{ℕ, zero, suc, Bool, Option, none, some}
use teiid_operator.Text.{Str}
use teiid_operator.Result.{Result, ok, err, not_found, conflict, panic, failed}
use teiid_operator.Exec.{Exec, pure}
use teiid_operator.Vdb.{VirtualDatabase}
use teiid_operator.Controller.Cluster.{Cluster, Route, Service, ServiceType, ConsoleLink}
use teiid_operator.Controller.Kubernetes.{ensure_object}
use teiid_operator.Controller.ConsoleLinks.{
  update_link, check_console_link, ensure_console_link, delete_found, remove_console_link,
}
use teiid_operator.Controller.Services.{
  ensure_service, create_internal_service, create_external_service, internal_service,
  external_service, wait_for_route, ensure_route, route_of, create_route,
}
use teiid_operator.Controller.Frame.{Keeps, Frame, Keeps-bind}

module _ {W : Type 0} {P : W → Type 0} {cluster : Cluster W} (frame : Frame P cluster) where
  update_link-Keeps : (o : Option ConsoleLink) → Keeps P (update_link cluster o)
  unfolding update_link
  update_link-Keeps none w p = p
  update_link-Keeps (some link) w p = frame.update_console_link link w p

  check_console_link-Keeps :
      (route : Route) (name namespace : Str) (r : Result ConsoleLink)
      → Keeps P (check_console_link cluster route name namespace r)
  unfolding check_console_link
  check_console_link-Keeps route name namespace (ok link) w p = update_link-Keeps _ w p
  check_console_link-Keeps route name namespace (err not_found) w p =
      frame.create_console_link _ w p
  check_console_link-Keeps route name namespace (err conflict) w p = p
  check_console_link-Keeps route name namespace (err panic) w p = p
  check_console_link-Keeps route name namespace (err (failed t)) w p = p

  pub ensure_console_link-Keeps :
      (o : Option Route) (name namespace : Str)
      → Keeps P (ensure_console_link cluster o name namespace)
  unfolding ensure_console_link
  ensure_console_link-Keeps none name namespace w p = p
  ensure_console_link-Keeps (some route) name namespace w p =
      check_console_link-Keeps route name namespace _ _ (frame.get_console_link _ w p)

  delete_found-Keeps : (r : Result ConsoleLink) → Keeps P (delete_found cluster r)
  unfolding delete_found
  delete_found-Keeps (ok link) w p = frame.delete_console_link link w p
  delete_found-Keeps (err e) w p = p

  pub remove_console_link-Keeps :
      (namespace name : Str) → Keeps P (remove_console_link cluster namespace name)
  unfolding remove_console_link
  remove_console_link-Keeps namespace name w p =
      delete_found-Keeps _ _ (frame.get_console_link _ w p)

  ensure_object-Keeps :
      {A : Type 0} (r : Result A) (create : Exec W (Unit {0}))
      → Keeps P create
      → Keeps P (ensure_object cluster r create)
  unfolding ensure_object
  ensure_object-Keeps (ok a) create k w p = p
  ensure_object-Keeps (err not_found) create k w p = k w p
  ensure_object-Keeps (err conflict) create k w p = p
  ensure_object-Keeps (err panic) create k w p = p
  ensure_object-Keeps (err (failed t)) create k w p = p

  ensure_service-Keeps : (service : Service) → Keeps P (ensure_service cluster service)
  unfolding ensure_service
  ensure_service-Keeps service w p =
      let owned : Result (Unit {0}) × W = cluster.set_controller_reference service.name w in
      let read : Result (Unit {0}) × W =
        cluster.get_service service.namespace service.name owned.1 in
      Keeps-bind P (ensure_object cluster read.0 (cluster.create_service service)) _
        (ensure_object-Keeps read.0 (cluster.create_service service) (frame.create_service service))
        (λ a w p. p) read.1
        (frame.get_service _ _ _ (frame.set_controller_reference service.name w p))

  pub create_internal_service-Keeps :
      (vdb : VirtualDatabase) (b : Bool) → Keeps P (create_internal_service cluster vdb b)
  unfolding create_internal_service
  create_internal_service-Keeps vdb b = ensure_service-Keeps (internal_service vdb b)

  pub create_external_service-Keeps :
      (vdb : VirtualDatabase) (name : Str) (type : ServiceType)
      → Keeps P (create_external_service cluster vdb name type)
  unfolding create_external_service
  create_external_service-Keeps vdb name type =
      ensure_service-Keeps (external_service vdb name type)

  wait_for_route-Keeps :
      (n : ℕ) (namespace name : Str) → Keeps P (wait_for_route cluster n namespace name)
  unfolding wait_for_route
  wait_for_route-Keeps zero namespace name w p = frame.get_route namespace name _ (frame.sleep w p)
  wait_for_route-Keeps (suc n) namespace name w p =
      go (cluster.get_route namespace name (cluster.sleep w)).0
        (wait_for_route-Keeps n namespace name) _
        (frame.get_route namespace name _ (frame.sleep w p))
    where
      go :
          (r : Result Route)
          → Keeps P (wait_for_route cluster n namespace name)
          → Keeps P
              (elim r [ ok route ↦ pure route | err _ ↦ wait_for_route cluster n namespace name ])
      go (ok route) later = λ w p. p
      go (err e) later = later

  ensure_route-Keeps : (route : Route) (r : Result Route) → Keeps P (ensure_route cluster route r)
  unfolding ensure_route
  ensure_route-Keeps route (ok r) w p = p
  ensure_route-Keeps route (err not_found) w p = frame.create_route route w p
  ensure_route-Keeps route (err conflict) w p = p
  ensure_route-Keeps route (err panic) w p = p
  ensure_route-Keeps route (err (failed t)) w p = p

  pub create_route-Keeps : (service : Service) → Keeps P (create_route cluster service)
  unfolding create_route
  create_route-Keeps service w p =
      let owned : Result (Unit {0}) × W = cluster.set_controller_reference service.name w in
      let read : Result Route × W = cluster.get_route service.namespace service.name owned.1 in
      Keeps-bind P (ensure_route cluster (route_of service) read.0) _
        (ensure_route-Keeps (route_of service) read.0)
        (λ a. wait_for_route-Keeps 58 service.namespace service.name) read.1
        (frame.get_route _ _ _ (frame.set_controller_reference service.name w p))
