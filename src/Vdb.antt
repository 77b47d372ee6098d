-- ===== src/Vdb.antt =====
-- pkg/apis/teiid/v1alpha1/virtualdatabase_types.go: the custom resource. Of the pod's resources, which
-- the operator only passes on, nothing is modelled.
use teiid_operator.Prelude.{ℕ, Option, List}
use teiid_operator.Text.{Str}
use teiid_operator.Envvar.{EnvVar, KeySelector}

-- ReconcilerPhase
pub data Phase : Type 0 where
  initial create_cache_store s2i_ready : Phase
  builder_image builder_image_finished builder_image_failed : Phase
  service_image service_image_finished service_image_failed : Phase
  service_created keystore_created deploying running error deleting : Phase

pub Phase-discrete : Discrete Phase
Phase-discrete = hlevel

pub data ExposeType : Type 0 where
  load_balancer node_port route expose_via_3scale : ExposeType

pub record DataSourceObject : Type 0 where
  pub name : Str
  pub type : Str
  pub properties : List EnvVar

pub record ValueSource : Type 0 where
  pub config_map_key_ref : Option KeySelector
  pub secret_key_ref : Option KeySelector

pub record Source : Type 0 where
  pub version : Str
  pub ddl : Str
  pub maven : Str
  pub open_api : Str
  pub dependencies : List Str
  pub maven_repositories : List (Str × Str)

pub record BuildObject : Type 0 where
  pub env : List EnvVar
  pub source : Source

-- corev1.ResourceRequirements, with the quantities as texts
pub record Resources : Type 0 where
  pub limits : List (Str × Str)
  pub requests : List (Str × Str)

pub record Spec : Type 0 where
  pub replicas : Option ℕ
  pub env : List EnvVar
  pub resources : Resources
  pub build : BuildObject
  pub jaeger : Str
  pub data_sources : List DataSourceObject
  pub expose : List ExposeType

pub record Status : Type 0 where
  pub phase : Phase
  pub digest : Str
  pub config_digest : Str
  pub failure : Str
  pub route : Str
  pub version : Str
  pub cache_store : Str

pub record VirtualDatabase : Type 0 where
  pub name : Str
  pub namespace : Str
  pub spec : Spec
  pub status : Status
