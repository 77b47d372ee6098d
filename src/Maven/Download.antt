-- ===== src/Maven/Download.antt =====
-- pkg/util/maven/maven.go: the names of artifacts, and their download from the repositories.
pub mod Search
use teiid_operator.Prelude.{
  ℕ, Bool, true, false, not, Option, none, some, List, [], ◌∷◌, ◌++◌, ◌==◌, nat_Eq, if◌then◌else◌,
}
use teiid_operator.Text.{Str, text_Eq, codes, contains, split_byte, replace_byte, join, has_suffix}
use teiid_operator.Result.{Result, ok, err, failed}
use teiid_operator.Exec.{Exec, pure, raise, lift, attempt, ◌>>=◌, ◌>>◌}
use teiid_operator.Maven.Types.{Dependency, SnapshotVersion, Metadata}

abbrev pub dash : Str
dash = codes "-"

unfoldable pub file_name : Dependency → Str → Str
file_name a version_timestamped =
    let ext = if a.type == [] then codes "jar" else a.type in
    if a.classifier == []
    then if version_timestamped == []
      then a.artifact_id ++ dash ++ a.version ++ codes "." ++ ext
      else a.artifact_id ++ dash ++ version_timestamped ++ codes "." ++ ext
    else if version_timestamped == []
    then a.artifact_id ++ dash ++ a.version ++ dash ++ a.classifier ++ codes "." ++ ext
    else a.artifact_id ++ dash ++ version_timestamped ++ dash ++ a.classifier ++ codes "." ++ ext

-- The path of an artifact in a repository.
unfoldable pub artifact_name : Dependency → Str → Str
artifact_name d version_timestamped =
    let parts = split_byte d.group_id b'.' ++ d.artifact_id ∷ [] in
    join (parts ++ d.version ∷ []) (codes "/") ++ codes "/" ++ file_name d version_timestamped

unfoldable pub artifact_url : Str → Str → Str
unfolding has_suffix
artifact_url repo name =
    if has_suffix repo (codes "/") then repo ++ name else repo ++ codes "/" ++ name

unfoldable pub metadata_url : Str → Dependency → Str
unfolding has_suffix replace_byte
metadata_url repo a =
    (if has_suffix repo (codes "/") then repo else repo ++ codes "/")
    ++ replace_byte b'.' b'/' a.group_id
    ++ codes "/"
    ++ a.artifact_id
    ++ codes "/"
    ++ a.version
    ++ codes "/maven-metadata.xml"

unfoldable pub version_of : List SnapshotVersion → Str → Option Str
version_of [] type = none
version_of (sv ∷ svs) type = if sv.extension == type then some sv.value else version_of svs type

pub record Response : Type 0 where
  pub status_code : ℕ
  pub status : Str
  pub body : Str

-- What the packages `os`, `net/http`, `io/ioutil` and `encoding/xml` do for a download.
pub record Remote (W : Type 0) : Type 0 where
  pub create_file : Str → Exec W (Unit {0})
  pub http_get : Str → Exec W Response
  pub write_file : Str → Str → Exec W (Unit {0})
  pub read_file : Str → Exec W Str
  pub unmarshal_metadata : Str → Result Metadata

abbrev pub metadata_path : Str
metadata_path = codes "/tmp/maven-metadata.xml"

module _ {W : Type 0} (remote : Remote W) where
  open remote use {create_file, http_get, write_file, read_file, unmarshal_metadata}

  unfoldable pub download_file : Str → Str → Exec W (Unit {0})
  download_file filepath url = do
    create_file filepath
    resp ← http_get url
    if resp.status_code == 200
        then write_file filepath resp.body
        else raise (failed (codes "bad status: " ++ resp.status))

  unfoldable pub fetch_metadata : Str → Exec W Metadata
  unfolding download_file
  fetch_metadata url = do
    download_file metadata_path url
    xml ← read_file metadata_path
    lift (unmarshal_metadata xml)

  abbrev pub version_in : Dependency → Result Metadata → Option Str
  version_in a (ok m) = version_of m.snapshot_versions a.type
  version_in a (err e) = none

  -- The empty text, where no repository has the version. The table's order is that of the iteration.
  unfoldable pub get_snapshot_version : Dependency → List (Str × Str) → Exec W Str
  unfolding fetch_metadata version_of metadata_url
  get_snapshot_version a [] = pure []
  get_snapshot_version a ((k, v) ∷ repos) = do
    r ← attempt (fetch_metadata (metadata_url v a))
    elim (version_in a r) [ some value ↦ pure value | none ↦ get_snapshot_version a repos ]

  unfoldable pub download_from : Str → Str → List (Str × Str) → Exec W Str
  unfolding download_file artifact_url
  download_from filepath name [] =
      raise (failed (codes "Failed to download the artifact from configured maven repositories"))
  download_from filepath name ((k, v) ∷ repos) = do
    r ← attempt (download_file filepath (artifact_url v name))
    elim r [ ok _ ↦ pure filepath | err _ ↦ download_from filepath name repos ]

  unfoldable pub download_dependency : Dependency → Str → List (Str × Str) → Exec W Str
  unfolding contains get_snapshot_version artifact_name download_from
  download_dependency d filepath repos =
      if contains d.version (codes "SNAPSHOT")
      then (do
        version ← get_snapshot_version d repos
        if version == []
            then raise (failed (codes "Failed to download the SNAPSHOT version of the artifact"))
            else download_from filepath (artifact_name d version) repos)
      else download_from filepath (artifact_name d []) repos
