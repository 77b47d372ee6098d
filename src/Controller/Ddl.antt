-- ===== src/Controller/Ddl.antt =====
-- The DDL of a database, pkg/util/vdbutil/ddl.go.
use teiid_operator.Prelude.{◌++◌, ◌==◌, [], if◌then◌else◌}
use teiid_operator.Text.{Str, text_Eq, codes}
use teiid_operator.Exec.{Exec, pure, lift, ◌>>=◌, ◌>>◌}
use teiid_operator.Archive.{extract, unzip}
use teiid_operator.Vdb.{VirtualDatabase}
use teiid_operator.Maven.Gav.{parse_gav}
use teiid_operator.Maven.Download.{download_dependency}
use teiid_operator.Controller.Config.{Config, get_maven_repositories}
use teiid_operator.Controller.Cluster.{Cluster}

module _ {W : Type 0} (cluster : Cluster W) where
  -- The names of the unpacked files are only logged.
  unfoldable pub read_archive : Str → Str → Exec W Str
  unfolding unzip
  read_archive vdb_file dest = do
    extract (unzip cluster.disk vdb_file dest)
    cluster.remote.read_file (dest ++ codes "/META-INF/vdb.ddl")

module _ {W : Type 0} (cluster : Cluster W) (config : Config) where
  unfoldable pub read_ddl_from_maven_repo : VirtualDatabase → Str → Exec W Str
  unfolding parse_gav download_dependency get_maven_repositories read_archive
  read_ddl_from_maven_repo vdb target_name = do
    dep ← lift (parse_gav vdb.spec.build.source.maven)
    vdb_file ←
        download_dependency cluster.remote dep target_name (get_maven_repositories config vdb)
    read_archive cluster vdb_file (codes "/tmp/" ++ vdb.name)

  unfoldable pub fetch_ddl : VirtualDatabase → Str → Exec W Str
  unfolding read_ddl_from_maven_repo
  fetch_ddl vdb target_name =
      if vdb.spec.build.source.maven == []
      then pure vdb.spec.build.source.ddl
      else read_ddl_from_maven_repo vdb target_name
