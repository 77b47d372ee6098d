-- ===== src/Controller/Updater.antt =====
-- pkg/controller/virtualdatabase/updater.go, and the decimal numbers of package `strconv` that it uses.
pub mod Decimal
pub mod Versions
use teiid_operator.Prelude.{Bool, not, ◌&&◌, Option, none, some, List, [], ◌==◌, if◌then◌else◌}
use teiid_operator.Text.{Str, text_Eq}
use teiid_operator.Vdb.{VirtualDatabase, Status, initial}
use teiid_operator.Controller.Cluster.{Cluster}
use teiid_operator.Controller.Digest.{compute_for_virtual_database}
use Decimal.{ℤ, atoi, itoa, increment}

-- The status version after an implicit update: a text that is no number stays.
unfoldable pub bump : Str → Option ℤ → Str
bump version (some ver) = itoa (increment ver)
bump version none = version

unfoldable pub next_version : Str → Str
unfolding bump
next_version version = bump version (atoi version)

module _ {W : Type 0} (cluster : Cluster W) where
  unfoldable pub is_vdb_updated : VirtualDatabase → Bool
  is_vdb_updated vdb = not (compute_for_virtual_database cluster vdb == vdb.status.digest)

  unfoldable pub redeploy_vdb : VirtualDatabase → VirtualDatabase
  redeploy_vdb vdb = record vdb {
    status = record vdb.status {
      phase = initial;
      digest = compute_for_virtual_database cluster vdb;
      version =
          if not (vdb.spec.build.source.ddl == []) && vdb.spec.build.source.version == []
          then next_version vdb.status.version
          else vdb.status.version;
    };
  }
