-- ===== src/Maven/Settings.antt =====
-- Settings, project directories and runs of Maven: pkg/util/maven/maven_settings.go, and CreateStructure and
-- Run of pkg/util/maven/maven.go. The encoding in XML, the files and the processes are parameters.
use teiid_operator.Prelude.{Bool, true, Option, none, some, List, [], ◌∷◌, ◌++◌}
use teiid_operator.Text.{Str, codes}
use teiid_operator.Result.{Result, ok, err}
use teiid_operator.Exec.{Exec, pure, lift, ◌>>=◌, ◌>>◌}
use teiid_operator.Maven.Types.{Repository, Project}

pub record PropertyActivation : Type 0 where
  pub name : Str
  pub value : Str

pub record Activation : Type 0 where
  pub active_by_default : Bool
  pub property : Option PropertyActivation

pub record Profile : Type 0 where
  pub id : Str
  pub activation : Activation
  pub properties : List (Str × Str)
  pub repositories : List Repository
  pub plugin_repositories : List Repository

pub record Settings : Type 0 where
  pub xml_name : Str
  pub xmlns : Str
  pub xmlns_xsi : Str
  pub xsi_schema_location : Str
  pub local_repository : Str
  pub profiles : List Profile

abbrev pub new_settings : Settings
new_settings = record {
  xml_name = codes "settings";
  xmlns = codes "http://maven.apache.org/SETTINGS/1.0.0";
  xmlns_xsi = codes "http://www.w3.org/2001/XMLSchema-instance";
  xsi_schema_location =
      codes
        "http://maven.apache.org/SETTINGS/1.0.0 https://maven.apache.org/xsd/settings-1.0.0.xsd";
  local_repository = [];
  profiles = [];
}

-- One profile, which is active by default, with the repositories for dependencies and for plugins.
unfoldable pub new_default_settings : List Repository → Settings
new_default_settings repositories = record new_settings {
  profiles =
      record {
        id = codes "maven-settings";
        activation = record { active_by_default = true; property = none };
        properties = [];
        repositories = repositories;
        plugin_repositories = repositories;
      }
      ∷ [];
}

-- A configuration map as it is created, with its metadata.
pub record SettingsConfigMap : Type 0 where
  pub name : Str
  pub namespace : Str
  pub labels : List (Str × Str)
  pub data_map : List (Str × Str)

unfoldable pub create_settings_config_map :
    (Settings → Result Str) → Str → Str → Settings → Result SettingsConfigMap
create_settings_config_map encode_xml namespace name settings = elim (encode_xml settings) [
  | err e ↦ err e
  | ok content ↦ ok (record {
    name = name ++ codes "-maven-settings";
    namespace = namespace;
    labels =
        (codes "app", name)
        ∷ (codes "teiid.io/VirtualDatabase", name)
        ∷ (codes "teiid.io/type", codes "VirtualDatabase")
        ∷ [];
    data_map = (codes "settings.xml", content) ∷ [];
  })
]

module _ {W : Type 0} (write_file_with_content : Str → Str → Str → Exec W (Unit {0})) where
  unfoldable pub create_structure : (Project → Result Str) → Str → Project → Exec W (Unit {0})
  create_structure encode_xml build_dir project = do
    pom ← lift (encode_xml project)
    write_file_with_content build_dir (codes "pom.xml") pom

-- `mvn`, where the environment names no other command.
abbrev pub mvn_command : Option Str → Str
mvn_command none = codes "mvn"
mvn_command (some c) = c

module _ {W : Type 0} (lookup_env : Str → Option Str)
    (command : Str → List Str → Str → Exec W (Unit {0})) where
  unfoldable pub run : Str → List Str → Exec W (Unit {0})
  run build_dir args =
      command (mvn_command (lookup_env (codes "MAVEN_CMD"))) (args ++ codes "--batch-mode" ∷ [])
        build_dir

-- MarshalXML of a table of properties: one element for each entry, within the element of the table; the
-- table's order is that of the iteration.
module _ {E Token : Type 0} (encode_token : Token → Exec E (Unit {0}))
    (encode_entry : Str → Str → Exec E (Unit {0})) where
  unfoldable pub marshal_entries : List (Str × Str) → Exec E (Unit {0})
  marshal_entries [] = pure tt
  marshal_entries ((k, v) ∷ m) = do encode_entry k v; marshal_entries m

  unfoldable pub marshal_xml : List (Str × Str) → Token → Token → Exec E (Unit {0})
  unfolding marshal_entries
  marshal_xml [] start end = pure tt
  marshal_xml (entry ∷ m) start end = do
    encode_token start
    marshal_entries (entry ∷ m)
    encode_token end
