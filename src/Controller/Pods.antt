-- ===== src/Controller/Pods.antt =====
-- What the operator reads off a deployment and what it adjusts in it: isDeploymentInReadyState,
-- isDeploymentProgressing, containerPorts, getExposedPort, matchLabels and the comparisons of
-- ensureReplicas, pkg/controller/virtualdatabase/deployment.go.
pub mod Settled
use native.Nat.{ℕᴺ_discrete}
use teiid_operator.Prelude.{
  ℕ, Bool, true, false, ◌&&◌, Option, none, some, List, [], ◌∷◌, ◌++◌, ◌==◌, nat_Eq, if◌then◌else◌,
  ltb,
}
use teiid_operator.Text.{Str, text_Eq, codes}
use teiid_operator.Table.{put}
use teiid_operator.Result.{Result, ok, err, panic}
use teiid_operator.Envvar.{EnvVar}
use teiid_operator.Controller.Cluster.{
  Deployment, Container, ContainerPort, Condition, available, progressing, ConditionType,
}
use teiid_operator.Controller.Deep.{differs}

pub EnvVars-discrete : Discrete (List EnvVar)
EnvVars-discrete = hlevel (ℕᴺ_discrete)

abbrev pub is_available : ConditionType → Bool
is_available available = true
is_available _ = false

abbrev pub is_progressing : ConditionType → Bool
is_progressing progressing = true
is_progressing _ = false

-- A condition of the type whose status is `True`
unfoldable pub any_condition : (ConditionType → Bool) → List Condition → Bool
any_condition test [] = false
any_condition test (c ∷ conditions) =
    if test c.type && c.status then true else any_condition test conditions

unfoldable pub is_deployment_in_ready_state : Deployment → Bool
unfolding any_condition
is_deployment_in_ready_state dc = any_condition is_available dc.conditions

unfoldable pub is_deployment_progressing : Deployment → Bool
unfolding any_condition
is_deployment_progressing dc = elim dc.conditions [
  | [] ↦ true
  | _ ∷ _ ↦
      if any_condition is_progressing dc.conditions then true else ltb dc.observed_generation 4
]

abbrev pub port : Str → ℕ → ContainerPort
port name number = record { name = name; container_port = number }

unfoldable pub container_ports : Bool → List ContainerPort
container_ports external_only =
    (if external_only
      then []
      else port (codes "http") 8080
        ∷ port (codes "jolokia") 8778
        ∷ port (codes "prometheus") 9779
        ∷ port (codes "teiid") 31000
        ∷ port (codes "pg") 35432
        ∷ [])
    ++ port (codes "teiid-secure") 31443 ∷ port (codes "pg-secure") 35443 ∷ []

unfoldable pub get_exposed_port : ContainerPort → ℕ
get_exposed_port p =
    if p.container_port == 35443
    then 5433
    else if p.container_port == 35432
    then 5432
    else p.container_port

unfoldable pub match_labels_of : Str → List (Str × Str)
match_labels_of vdb_name =
    (codes "app", vdb_name)
    ∷ (codes "teiid.io/VirtualDatabase", vdb_name)
    ∷ (codes "teiid.io/type", codes "VirtualDatabase")
    ∷ []

-- The zero value, which a failed read leaves.
abbrev pub no_deployment : Deployment
no_deployment = record {
  name = [];
  namespace = [];
  labels = [];
  annotations = [];
  replicas = none;
  match_labels = [];
  strategy = [];
  template_name = [];
  template_labels = [];
  template_annotations = none;
  containers = [];
  volumes = [];
  conditions = [];
  observed_generation = 0;
}

abbrev pub config_hash : Str
config_hash = codes "configHash"

-- A write through the first container, which panics where there is none.
unfoldable pub with_first : (Container → Container) → Deployment → Result Deployment
with_first f item = elim item.containers [
  | [] ↦ err panic
  | c ∷ rest ↦ ok (record item { containers = f c ∷ rest })
]

unfoldable pub first_container : Deployment → Result Container
first_container item = elim item.containers [ [] ↦ err panic | c ∷ rest ↦ ok c ]

-- A write to the annotations of the template, which panics where the map is nil.
unfoldable pub annotate : Str → Deployment → Result Deployment
unfolding put
annotate digest item = elim item.template_annotations [
  | none ↦ err panic
  | some annotations ↦
      ok (record item { template_annotations = some (put annotations config_hash digest) })
]

-- `*p`
unfoldable pub read_through : Option ℕ → Result ℕ
read_through none = err panic
read_through (some n) = ok n

-- The comparison of the replicas and of the environment; whether there is something to update comes
-- back beside the deployment to store.
unfoldable pub adjust_replicas : ℕ → ℕ → Deployment → Deployment × Bool
adjust_replicas wanted found item =
    if wanted == found then (item, false) else (record item { replicas = some wanted }, true)

abbrev pub changed_to : Result Deployment → Result (Deployment × Bool)
changed_to (ok item) = ok (item, true)
changed_to (err e) = err e

unfoldable pub adjust_env : List EnvVar → Container → Deployment × Bool → Result (Deployment × Bool)
unfolding with_first
adjust_env envs c (item, changed) =
    if differs EnvVars-discrete envs c.env
    then changed_to (with_first (λ x. record x { env = envs }) item)
    else ok (item, changed)
