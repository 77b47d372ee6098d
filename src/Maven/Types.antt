-- ===== src/Maven/Types.antt =====
-- pkg/util/maven/maven_project_types.go
use teiid_operator.Prelude.{Bool, Option, List}
use teiid_operator.Text.{Str}

pub record Exclusion : Type 0 where
  pub group_id : Str
  pub artifact_id : Str

pub record Parent : Type 0 where
  pub group_id : Str
  pub artifact_id : Str
  pub version : Str

pub record Dependency : Type 0 where
  pub group_id : Str
  pub artifact_id : Str
  pub version : Str
  pub type : Str
  pub classifier : Str
  pub scope : Str
  pub exclusions : Option (List Exclusion)

pub record RepositoryPolicy : Type 0 where
  pub enabled : Bool
  pub update_policy : Str
  pub checksum_policy : Str

pub record Repository : Type 0 where
  pub id : Str
  pub name : Str
  pub url : Str
  pub snapshots : RepositoryPolicy
  pub releases : RepositoryPolicy

pub record ArtifactItem : Type 0 where
  pub group_id : Str
  pub artifact_id : Str
  pub version : Str
  pub type : Str
  pub destination_file_name : Str

pub record Configuration : Type 0 where
  pub artifact_items : List ArtifactItem
  pub output_directory : Str
  pub vdb_file : Str
  pub materialization_enable : Bool
  pub vdb_version : Str
  pub materialization_type : Str

pub record Execution : Type 0 where
  pub id : Str
  pub phase : Str
  pub goals : List Str
  pub configuration : Configuration

pub record Plugin : Type 0 where
  pub group_id : Str
  pub artifact_id : Str
  pub version : Str
  pub executions : List Execution
  pub dependencies : List Dependency

pub record Build : Type 0 where
  pub default_goal : Str
  pub plugins : List Plugin

pub record Project : Type 0 where
  pub xml_name : Str
  pub xmlns : Str
  pub xmlns_xsi : Str
  pub xsi_schema_location : Str
  pub model_version : Str
  pub group_id : Str
  pub artifact_id : Str
  pub version : Str
  pub packaging : Str
  pub parent : Parent
  pub properties : List (Str × Str)
  pub dependency_management : List Dependency
  pub dependencies : List Dependency
  pub repositories : List Repository
  pub plugin_repositories : List Repository
  pub build : Build

pub record SnapshotVersion : Type 0 where
  pub extension : Str
  pub value : Str
  pub updated : Str

-- Metadata: the part that the operator reads, the versioning's list of snapshot versions.
pub record Metadata : Type 0 where
  pub snapshot_versions : List SnapshotVersion
