-- ===== src/Controller/Digest.antt =====
-- pkg/controller/virtualdatabase/digest.go
pub mod Laws
use teiid_operator.Prelude.{ℕ, Bool, List, [], ◌∷◌, ◌++◌, ◌==◌, if◌then◌else◌}
use teiid_operator.Text.{Str, text_Eq, codes}
use teiid_operator.Exec.{Exec, pure, ◌>>=◌}
use teiid_operator.Envvar.{EnvVar}
use teiid_operator.Vdb.{VirtualDatabase, DataSourceObject}
use teiid_operator.Controller.Config.{version}
use teiid_operator.Controller.Cluster.{Cluster}
use teiid_operator.Controller.Kubernetes.{revision_of_config_map_or_secret}

-- A hash sees what is written to it one text after the other.
unfoldable pub write_if : Str → Str → Str
write_if written s = if s == [] then written else written ++ s

unfoldable pub write_all : Str → List Str → Str
write_all written [] = written
write_all written (s ∷ rest) = write_all (written ++ s) rest

unfoldable pub digest_input : VirtualDatabase → Str
digest_input vdb =
    write_all
      (write_if (write_if (write_if version vdb.spec.build.source.ddl) vdb.spec.build.source.maven)
        vdb.spec.build.source.open_api)
      vdb.spec.build.source.dependencies

module _ {W : Type 0} (cluster : Cluster W) where
  open cluster use {hash_text}

  -- ComputeForVirtualDatabase: writing to a hash returns no error.
  unfoldable pub compute_for_virtual_database : VirtualDatabase → Str
  compute_for_virtual_database vdb = codes "v" ++ hash_text (digest_input vdb)

  unfoldable pub revisions : Str → List EnvVar → Str → Exec W Str
  unfolding revision_of_config_map_or_secret
  revisions namespace [] written = pure written
  revisions namespace (env ∷ envs) written = do
    str ← revision_of_config_map_or_secret cluster namespace env
    revisions namespace envs (written ++ str)

  unfoldable pub source_revisions : Str → List DataSourceObject → Str → Exec W Str
  unfolding revisions
  source_revisions namespace [] written = pure written
  source_revisions namespace (ds ∷ rest) written = do
    written' ← revisions namespace ds.properties (written ++ ds.name)
    source_revisions namespace rest written'

  unfoldable pub compute_config_digest : VirtualDatabase → Exec W Str
  unfolding revisions source_revisions
  compute_config_digest vdb = do
    written ← revisions vdb.namespace vdb.spec.env []
    written' ← source_revisions vdb.namespace vdb.spec.data_sources written
    pure (codes "c" ++ hash_text written')
