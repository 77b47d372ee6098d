-- ===== src/Controller/Frame.antt =====
-- What the calls of the cluster leave as it is: a property of its state that every call keeps but the
-- update of the resource.
pub mod Reads
pub mod Stores
pub mod Builds
pub mod ServiceBuilds
pub mod Deployments
pub mod Early
pub mod Late
pub mod Tending
pub mod Written
pub mod Objects
pub mod Downloads
use teiid_operator.Prelude.{ℕ, Bool, true, false, List, ◌<◌, if◌then◌else◌}
use teiid_operator.Text.{Str}
use teiid_operator.Result.{Result, ok, err, not_found, conflict, panic, failed}
use teiid_operator.Exec.{Exec, continue, attempt, caught, guarded, ◌>>=◌}
pub use teiid_operator.Exec.Keeps.{
  Keeps, Keeps-continue, Keeps-bind, Keeps-guarded, Keeps-if, Keeps-elim,
}
use teiid_operator.Maven.Download.{Remote}
use teiid_operator.Archive.{Entry, Disk}
use teiid_operator.Controller.Cluster.{
  Cluster, Context, Service, Route, ConsoleLink, Deployment, BuildConfig, Infinispan,
  ServiceMonitor,
}

-- A property of the cluster, of the state of a handler.
abbrev pub OfWorld : {W : Type 0} → (W → Type 0) → Context W → Type 0
OfWorld P s = P s.world

pub record RemoteFrame {W : Type 0} (P : W → Type 0) (remote : Remote W) : Type 0 where
  pub create_file : (a : Str) → Keeps P (remote.create_file a)
  pub http_get : (a : Str) → Keeps P (remote.http_get a)
  pub write_file : (a b : Str) → Keeps P (remote.write_file a b)
  pub read_file : (a : Str) → Keeps P (remote.read_file a)

pub record DiskFrame {W : Type 0} (P : W → Type 0) (disk : Disk W) : Type 0 where
  pub open_reader : (a : Str) → Keeps P (disk.open_reader a)
  pub mkdir_all : (a : Str) → Keeps P (disk.mkdir_all a)
  pub open_file : (a : Str) → Keeps P (disk.open_file a)
  pub open_entry : (a : Entry) → Keeps P (disk.open_entry a)
  pub copy : (a b : Str) → Keeps P (disk.copy a b)

pub record Frame {W : Type 0} (P : W → Type 0) (cluster : Cluster W) : Type 0 where
  pub get_vdb : (a : Str) (b : Str) → Keeps P (cluster.get_vdb a b)
  pub get_secret : (a : Str) (b : Str) → Keeps P (cluster.get_secret a b)
  pub create_secret :
      (a : Str) (b : Str) (c : List (Str × Str)) → Keeps P (cluster.create_secret a b c)
  pub get_config_map : (a : Str) (b : Str) → Keeps P (cluster.get_config_map a b)
  pub get_service : (a : Str) (b : Str) → Keeps P (cluster.get_service a b)
  pub create_service : (a : Service) → Keeps P (cluster.create_service a)
  pub get_route : (a : Str) (b : Str) → Keeps P (cluster.get_route a b)
  pub create_route : (a : Route) → Keeps P (cluster.create_route a)
  pub console_link_exists : Keeps P cluster.console_link_exists
  pub get_console_link : (a : Str) → Keeps P (cluster.get_console_link a)
  pub create_console_link : (a : ConsoleLink) → Keeps P (cluster.create_console_link a)
  pub update_console_link : (a : ConsoleLink) → Keeps P (cluster.update_console_link a)
  pub delete_console_link : (a : ConsoleLink) → Keeps P (cluster.delete_console_link a)
  pub get_deployment : (a : Str) (b : Str) → Keeps P (cluster.get_deployment a b)
  pub create_deployment : (a : Deployment) → Keeps P (cluster.create_deployment a)
  pub update_deployment : (a : Deployment) → Keeps P (cluster.update_deployment a)
  pub get_build_config : (a : Str) (b : Str) → Keeps P (cluster.get_build_config a b)
  pub create_build_config : (a : BuildConfig) → Keeps P (cluster.create_build_config a)
  pub update_build_config : (a : BuildConfig) → Keeps P (cluster.update_build_config a)
  pub list_builds : (a : Str) (b : Str) → Keeps P (cluster.list_builds a b)
  pub start_binary_build :
      (a : Str) (b : Str) (c : List (Str × Str)) → Keeps P (cluster.start_binary_build a b c)
  pub start_build : (a : Str) (b : Str) → Keeps P (cluster.start_build a b)
  pub get_image_stream : (a : Str) (b : Str) → Keeps P (cluster.get_image_stream a b)
  pub create_image_stream : (a : Str) (b : Str) → Keeps P (cluster.create_image_stream a b)
  pub create_docker_image_stream :
      (a : Str) (b : Str) (c : Str) (d : Str) → Keeps P (cluster.create_docker_image_stream a b c d)
  pub get_image_stream_tag : (a : Str) (b : Str) → Keeps P (cluster.get_image_stream_tag a b)
  pub list_jaegers : (a : Str) → Keeps P (cluster.list_jaegers a)
  pub server_groups : Keeps P cluster.server_groups
  pub create_infinispan : (a : Infinispan) → Keeps P (cluster.create_infinispan a)
  pub list_prometheus_selectors : (a : Str) → Keeps P (cluster.list_prometheus_selectors a)
  pub list_service_monitors : (a : Str) → Keeps P (cluster.list_service_monitors a)
  pub create_service_monitor : (a : ServiceMonitor) → Keeps P (cluster.create_service_monitor a)
  pub set_controller_reference : (a : Str) → Keeps P (cluster.set_controller_reference a)
  pub tar : (a : List (Str × Str)) → Keeps P (cluster.tar a)
  pub read_service_ca : Keeps P cluster.read_service_ca
  pub disk : DiskFrame P cluster.disk
  pub sleep : (w : W) → P w → P (cluster.sleep w)
  pub intn : (n : ℕ) (h : 0 < n) (w : W) → P w → P (cluster.random.intn n h w).1
  pub shuffle : (n : ℕ) (w : W) → P w → P (cluster.random.shuffle n w).1
  pub remote : RemoteFrame P cluster.remote
