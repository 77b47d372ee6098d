-- ===== src/Controller/Frame/Downloads.antt =====
-- The downloads of Maven/Download.antt, and the DDL that they bring: Controller/Ddl.antt.
use teiid_operator.Prelude.{Option, none, some, List, [], ◌∷◌, ◌++◌, ◌==◌, nat_Eq}
use teiid_operator.Text.{Str, text_Eq, codes, contains}
use teiid_operator.Result.{Result, ok, err}
use teiid_operator.Exec.{pure}
use teiid_operator.Vdb.{VirtualDatabase}
use teiid_operator.Maven.Types.{Dependency}
use teiid_operator.Maven.Gav.{parse_gav}
use teiid_operator.Maven.Download.{
  Remote, metadata_path, artifact_name, artifact_url, metadata_url, version_in, download_file,
  fetch_metadata, get_snapshot_version, download_from, download_dependency,
}
use teiid_operator.Controller.Config.{Config, get_maven_repositories}
use teiid_operator.Controller.Cluster.{Cluster}
use teiid_operator.Archive.{extract, unzip}
use teiid_operator.Archive.Confined.{Guards, unzip-IsConfined}
use teiid_operator.Controller.Ddl.{read_archive, read_ddl_from_maven_repo, fetch_ddl}
use teiid_operator.Controller.Frame.{
  Keeps, Frame, RemoteFrame, Keeps-bind, Keeps-continue, Keeps-if,
}

module _ {W : Type 0} {P : W → Type 0} {remote : Remote W} (frame : RemoteFrame P remote) where
  download_file-Keeps : (filepath url : Str) → Keeps P (download_file remote filepath url)
  unfolding download_file
  download_file-Keeps filepath url =
      Keeps-bind P (remote.create_file filepath) _ (frame.create_file filepath) (λ a.
        Keeps-bind P (remote.http_get url) _ (frame.http_get url) (λ resp.
          Keeps-if P (resp.status_code == 200) _ _ (frame.write_file filepath resp.body)
            (λ w p. p)))

  fetch_metadata-Keeps : (url : Str) → Keeps P (fetch_metadata remote url)
  unfolding fetch_metadata
  fetch_metadata-Keeps url =
      Keeps-bind P (download_file remote metadata_path url) _
        (download_file-Keeps metadata_path url)
        (λ a.
          Keeps-bind P (remote.read_file metadata_path) _ (frame.read_file metadata_path)
            (λ xml w p. p))

  get_snapshot_version-Keeps :
      (a : Dependency) (repos : List (Str × Str)) → Keeps P (get_snapshot_version remote a repos)
  unfolding get_snapshot_version
  get_snapshot_version-Keeps a [] w p = p
  get_snapshot_version-Keeps a ((k, v) ∷ repos) w p =
      go (version_in remote a (fetch_metadata remote (metadata_url v a) w).0)
        (get_snapshot_version-Keeps a repos) _ (fetch_metadata-Keeps (metadata_url v a) w p)
    where
      go :
          (o : Option Str)
          → Keeps P (get_snapshot_version remote a repos)
          → Keeps P
              (elim o [ some value ↦ pure value | none ↦ get_snapshot_version remote a repos ])
      go (some value) later = λ w p. p
      go none later = later

  download_from-Keeps :
      (filepath name : Str) (repos : List (Str × Str))
      → Keeps P (download_from remote filepath name repos)
  unfolding download_from
  download_from-Keeps filepath name [] w p = p
  download_from-Keeps filepath name ((k, v) ∷ repos) w p =
      go (download_file remote filepath (artifact_url v name) w).0
        (download_from-Keeps filepath name repos) _
        (download_file-Keeps filepath (artifact_url v name) w p)
    where
      go :
          (r : Result (Unit {0}))
          → Keeps P (download_from remote filepath name repos)
          → Keeps P
              (elim r [ ok _ ↦ pure filepath | err _ ↦ download_from remote filepath name repos ])
      go (ok a) later = λ w p. p
      go (err e) later = later

  pub download_dependency-Keeps :
      (d : Dependency) (filepath : Str) (repos : List (Str × Str))
      → Keeps P (download_dependency remote d filepath repos)
  unfolding download_dependency
  download_dependency-Keeps d filepath repos =
      Keeps-if P (contains d.version (codes "SNAPSHOT")) _ _
        (Keeps-bind P (get_snapshot_version remote d repos) _ (get_snapshot_version-Keeps d repos)
          (λ version.
            Keeps-if P (version == []) _ _ (λ w p. p)
              (download_from-Keeps filepath (artifact_name d version) repos)))
        (download_from-Keeps filepath (artifact_name d []) repos)

module _ {W : Type 0} {P : W → Type 0} {cluster : Cluster W} (frame : Frame P cluster)
    (config : Config) where
  everywhere : (dest : Str) → Guards P cluster.disk dest
  everywhere dest = record {
    open_reader = frame.disk.open_reader;
    open_entry = frame.disk.open_entry;
    mkdir_all = λ p h. frame.disk.mkdir_all p;
    mkdir_of = λ p h. frame.disk.mkdir_all (cluster.disk.dir p);
    open_file = λ p h. frame.disk.open_file p;
    copy = λ p content h. frame.disk.copy p content;
  }

  read_archive-Keeps : (vdb_file dest : Str) → Keeps P (read_archive cluster vdb_file dest)
  unfolding read_archive
  read_archive-Keeps vdb_file dest =
      Keeps-bind P (extract (unzip cluster.disk vdb_file dest)) _
        (λ w p.
          (unzip-IsConfined P cluster.disk dest (everywhere dest) vdb_file
            (record { filenames = []; world = w }) (tt, p)).1)
        (λ a. frame.remote.read_file (dest ++ codes "/META-INF/vdb.ddl"))

  read_ddl_from_maven_repo-Keeps :
      (vdb : VirtualDatabase) (target_name : Str)
      → Keeps P (read_ddl_from_maven_repo cluster config vdb target_name)
  unfolding read_ddl_from_maven_repo
  read_ddl_from_maven_repo-Keeps vdb target_name w p =
      Keeps-continue P (parse_gav vdb.spec.build.source.maven) _ w p (λ dep.
        Keeps-bind P
          (download_dependency cluster.remote dep target_name (get_maven_repositories config vdb)) _
          (download_dependency-Keeps frame.remote dep target_name
            (get_maven_repositories config vdb))
          (λ file. read_archive-Keeps file (codes "/tmp/" ++ vdb.name)) w p)

  pub fetch_ddl-Keeps :
      (vdb : VirtualDatabase) (target_name : Str)
      → Keeps P (fetch_ddl cluster config vdb target_name)
  unfolding fetch_ddl
  fetch_ddl-Keeps vdb target_name =
      Keeps-if P (vdb.spec.build.source.maven == []) _ _ (λ w p. p)
        (read_ddl_from_maven_repo-Keeps vdb target_name)
