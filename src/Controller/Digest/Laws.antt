-- ===== src/Controller/Digest/Laws.antt =====
-- What the digest of a virtual database depends on.
use teiid_operator.Prelude.{
  ◌≡◌, List, [], ◌∷◌, ◌++◌, ◌==◌, Bool-cases, inl, inr, append-nil, append_assoc,
}
use teiid_operator.Text.{Str, text_Eq, eq→≡}
use teiid_operator.Vdb.{VirtualDatabase}
use teiid_operator.Controller.Config.{version}
use teiid_operator.Controller.Cluster.{Cluster}
use teiid_operator.Controller.Digest.{
  write_if, write_all, digest_input, compute_for_virtual_database,
}

write_if-append : (w s : Str) → write_if w s ≡ w ++ s
unfolding write_if
write_if-append w s = elim (Bool-cases (s == [])) [
  | inl e ↦ rw (e, eq→≡ s [] e, append-nil)
  | inr e ↦ rw e
]

abbrev pub concat : List Str → Str
concat [] = []
concat (s ∷ rest) = s ++ concat rest

write_all-append : (w : Str) (ss : List Str) → write_all w ss ≡ w ++ concat ss
unfolding write_all
write_all-append w [] = rw append-nil
write_all-append w (s ∷ ss) = rw (write_all-append (w ++ s) ss, append_assoc)

-- The fields that are hashed, run together.
abbrev pub source_text : VirtualDatabase → Str
source_text vdb =
    vdb.spec.build.source.ddl
    ++ (vdb.spec.build.source.maven
        ++ (vdb.spec.build.source.open_api ++ concat vdb.spec.build.source.dependencies))

digest_input-source_text : (vdb : VirtualDatabase) → digest_input vdb ≡ version ++ source_text vdb
unfolding digest_input
digest_input-source_text vdb = simp (write_all-append, write_if-append, append_assoc)

-- The digest depends on nothing but the text of the DDL, the Maven coordinates, the OpenAPI document and
-- the dependencies, run together: two databases between whose fields that text is divided in two ways
-- have one digest.
pub digest_collision :
    {W : Type 0} (cluster : Cluster W) (u v : VirtualDatabase)
    → source_text u ≡ source_text v
    → compute_for_virtual_database cluster u ≡ compute_for_virtual_database cluster v
unfolding compute_for_virtual_database
digest_collision cluster u v h = rw (digest_input-source_text u, digest_input-source_text v, h)
