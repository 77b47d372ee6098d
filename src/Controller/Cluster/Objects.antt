-- ===== src/Controller/Cluster/Objects.antt =====
-- The objects of the API server, as far as the operator reads or writes them.
use teiid_operator.Prelude.{ℕ, Bool, Option, List}
use teiid_operator.Text.{Str}
use teiid_operator.Envvar.{EnvVar}
use teiid_operator.Vdb.{Resources}

pub record Secret : Type 0 where
  pub data_map : List (Str × Str)
  pub string_data : List (Str × Str)
  pub resource_version : Str

pub record ConfigMap : Type 0 where
  pub data_map : List (Str × Str)
  pub resource_version : Str

-- obuildv1.BuildPhase, as far as the operator tells phases apart
pub data BuildPhase : Type 0 where
  complete failed error cancelled running other : BuildPhase

-- obuildv1.Build: its phase, and the annotation openshift.io/build.number
pub record BuildRun : Type 0 where
  pub phase : BuildPhase
  pub number : Str

pub data SourceType : Type 0 where
  binary other : SourceType

pub record BuildConfig : Type 0 where
  pub name : Str
  pub namespace : Str
  pub app : Str
  pub output_to : Str
  pub source_type : SourceType
  pub incremental : Bool
  pub env : List EnvVar
  pub from_name : Str
  pub from_namespace : Str
  pub last_version : ℕ

pub record ContainerPort : Type 0 where
  pub name : Str
  pub container_port : ℕ

-- A probe by an HTTP request, with its times in seconds.
pub record Probe : Type 0 where
  pub path : Str
  pub port : ℕ
  pub initial_delay : ℕ
  pub timeout : ℕ
  pub period : ℕ
  pub success_threshold : ℕ
  pub failure_threshold : ℕ

pub record VolumeMount : Type 0 where
  pub name : Str
  pub read_only : Bool
  pub mount_path : Str

-- A volume that a secret fills
pub record Volume : Type 0 where
  pub name : Str
  pub secret_name : Str

pub record Container : Type 0 where
  pub name : Str
  pub env : List EnvVar
  pub image : Str
  pub image_pull_policy : Str
  pub ports : List ContainerPort
  pub resources : Resources
  pub liveness_probe : Option Probe
  pub readiness_probe : Option Probe
  pub working_dir : Str
  pub volume_mounts : List VolumeMount

-- appsv1.DeploymentCondition: available, progressing or another, and whether its status is `True`
pub data ConditionType : Type 0 where
  available progressing other : ConditionType

pub record Condition : Type 0 where
  pub type : ConditionType
  pub status : Bool

-- The annotations of the template are none where the map is nil.
pub record Deployment : Type 0 where
  pub name : Str
  pub namespace : Str
  pub labels : List (Str × Str)
  pub annotations : List (Str × Str)
  pub replicas : Option ℕ
  pub match_labels : List (Str × Str)
  pub strategy : Str
  pub template_name : Str
  pub template_labels : List (Str × Str)
  pub template_annotations : Option (List (Str × Str))
  pub containers : List Container
  pub volumes : List Volume
  pub conditions : List Condition
  pub observed_generation : ℕ

pub data ServiceType : Type 0 where
  cluster_ip load_balancer_type node_port_type : ServiceType

pub record ServicePort : Type 0 where
  pub name : Str
  pub port : ℕ
  pub target_port : ℕ

pub record Service : Type 0 where
  pub name : Str
  pub namespace : Str
  pub labels : List (Str × Str)
  pub annotations : List (Str × Str)
  pub selector : List (Str × Str)
  pub type : ServiceType
  pub ports : List ServicePort

pub record Route : Type 0 where
  pub name : Str
  pub namespace : Str
  pub labels : List (Str × Str)
  pub annotations : List (Str × Str)
  pub service : Str
  pub host : Str

pub record ConsoleLink : Type 0 where
  pub name : Str
  pub label : Str
  pub text : Str
  pub href : Str
  pub namespaces : List Str

pub record ServiceMonitor : Type 0 where
  pub name : Str
  pub namespace : Str
  pub labels : List (Str × Str)
  pub selector : List (Str × Str)
  pub port : Str

pub record Infinispan : Type 0 where
  pub namespace : Str
  pub name : Str
  pub endpoint_secret_name : Str
  pub replicas : ℕ
