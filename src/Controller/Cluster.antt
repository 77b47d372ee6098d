-- ===== src/Controller/Cluster.antt =====
-- What the operator asks of the API server and of the machine it runs on: the interface of the client
-- packages, which the definitions take as a parameter. `W` is the state of the cluster and of the machine;
-- it may change at each call, reads included, since other controllers run beside the operator.
mod Objects
use teiid_operator.Prelude.{Option, List}
use teiid_operator.Text.{Str}
use teiid_operator.Result.{Err, Result, ok}
use teiid_operator.Exec.{Exec}
use teiid_operator.Password.{Random, random_password}
use teiid_operator.Vdb.{VirtualDatabase}
use teiid_operator.Maven.Types.{Project}
use teiid_operator.Maven.Settings.{Settings}
use teiid_operator.Maven.Download.{Remote}
use teiid_operator.Archive.{Disk}
pub use teiid_operator.Controller.Cluster.Objects.{
  Secret, ConfigMap, BuildPhase, BuildRun, SourceType, BuildConfig, ContainerPort, Probe,
  VolumeMount, Volume, Container, ConditionType, Condition, Deployment, ServiceType, ServicePort,
  Service, Route, ConsoleLink, ServiceMonitor, Infinispan, complete, failed, error, cancelled,
  running, other, binary, available, progressing, cluster_ip, load_balancer_type, node_port_type,
}

-- Calls take the namespace first and then the name. `remote` downloads and reads files, `disk` is what the
-- unpacking of archives calls; the last fields are pure functions of other packages: the texts of API
-- errors, a base64 text of a SHA-256 hash, the printing of XML, and key stores.
pub record Cluster (W : Type 0) : Type 0 where
  pub get_vdb : Str → Str → Exec W VirtualDatabase
  pub update_vdb : VirtualDatabase → Exec W (Unit {0})
  pub get_secret : Str → Str → Exec W Secret
  pub create_secret : Str → Str → List (Str × Str) → Exec W (Unit {0})
  pub get_config_map : Str → Str → Exec W ConfigMap
  pub get_service : Str → Str → Exec W (Unit {0})
  pub create_service : Service → Exec W (Unit {0})
  pub get_route : Str → Str → Exec W Route
  pub create_route : Route → Exec W (Unit {0})
  pub console_link_exists : Exec W (Unit {0})
  pub get_console_link : Str → Exec W ConsoleLink
  pub create_console_link : ConsoleLink → Exec W (Unit {0})
  pub update_console_link : ConsoleLink → Exec W (Unit {0})
  pub delete_console_link : ConsoleLink → Exec W (Unit {0})
  pub get_deployment : Str → Str → Exec W Deployment
  pub create_deployment : Deployment → Exec W (Unit {0})
  pub update_deployment : Deployment → Exec W (Unit {0})
  pub get_build_config : Str → Str → Exec W BuildConfig
  pub create_build_config : BuildConfig → Exec W BuildConfig
  pub update_build_config : BuildConfig → Exec W (Unit {0})
  pub list_builds : Str → Str → Exec W (List BuildRun)
  pub start_binary_build : Str → Str → List (Str × Str) → Exec W (Unit {0})
  pub start_build : Str → Str → Exec W (Unit {0})
  pub get_image_stream : Str → Str → Exec W (Unit {0})
  pub create_image_stream : Str → Str → Exec W (Unit {0})
  pub create_docker_image_stream : Str → Str → Str → Str → Exec W (Unit {0})
  pub get_image_stream_tag : Str → Str → Exec W (Unit {0})
  pub list_jaegers : Str → Exec W (List Str)
  pub server_groups : Exec W (List Str)
  pub create_infinispan : Infinispan → Exec W (Unit {0})
  pub list_prometheus_selectors : Str → Exec W (List (Option (List (Str × Str))))
  pub list_service_monitors : Str → Exec W (List Str)
  pub create_service_monitor : ServiceMonitor → Exec W (Unit {0})
  pub set_controller_reference : Str → Exec W (Unit {0})
  pub tar : List (Str × Str) → Exec W (List (Str × Str))
  pub sleep : W → W
  pub random : Random W
  pub read_service_ca : Exec W Str
  pub disk : Disk W
  pub remote : Remote W
  pub environ : Str → Option Str
  pub error_text : Err → Str
  pub hash_text : Str → Str
  pub encode_project : Project → Result Str
  pub encode_settings : Settings → Result Str
  pub create_pkcs12_keystore : Str → Str → Str → Result Str
  pub create_pkcs12_truststore : Str → Str → Result Str

module _ {W : Type 0} (cluster : Cluster W) where
  -- RandomPassword of pkg/util/util.go and time.Sleep, which have no error.
  unfoldable pub draw_password : Exec W Str
  unfolding random_password
  draw_password w = let (password, w') = random_password cluster.random w in (ok password, w')

  abbrev pub pause : Exec W (Unit {0})
  pause w = (ok tt, cluster.sleep w)

-- The state of a handler: the resource that it works on, in memory, and the cluster.
pub record Context (W : Type 0) : Type 0 where
  pub vdb : VirtualDatabase
  pub world : W

-- A call leaves the resource in memory as it is.
abbrev pub call : {W A : Type 0} → Exec W A → Exec (Context W) A
call m s = let (r, w) = m s.world in (r, record s { world = w })
