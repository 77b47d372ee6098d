-- ===== src/Maven/Project.antt =====
-- pkg/util/maven/maven_project.go: editing a project.
pub mod Dependencies
use teiid_operator.Prelude.{
  ℕ, zero, suc, Bool, true, false, ◌&&◌, Option, none, some, List, [], ◌∷◌, ◌++◌, ◌==◌,
  if◌then◌else◌, take, drop, for_each,
}
use teiid_operator.Text.{Str, text_Eq, codes, index_byte, split_byte, has_prefix}
use teiid_operator.Result.{Result, ok, err}
use teiid_operator.Maven.Types.{
  Dependency, Exclusion, Repository, RepositoryPolicy, Project, Plugin, Build,
}
use teiid_operator.Maven.Gav.{parse_gav}

-- The test by which every loop over the dependencies tells them apart.
unfoldable pub same_ga : Dependency → Dependency → Bool
same_ga d e = d.group_id == e.group_id && d.artifact_id == e.artifact_id

unfoldable pub lookup_in : List Dependency → Dependency → Option Dependency
lookup_in [] dep = none
lookup_in (d ∷ ds) dep = if same_ga d dep then some d else lookup_in ds dep

unfoldable pub lookup_dependency : Project → Dependency → Option Dependency
unfolding lookup_in
lookup_dependency p dep = lookup_in p.dependencies dep

-- A write through the first entry that has the coordinates of `dep`.
unfoldable pub modify_in :
    List Dependency → Dependency → (Dependency → Dependency) → List Dependency
modify_in [] dep f = []
modify_in (d ∷ ds) dep f = if same_ga d dep then f d ∷ ds else d ∷ modify_in ds dep f

unfoldable pub replace_dependency : Project → Dependency → Project
unfolding modify_in
replace_dependency p dep = record p { dependencies = modify_in p.dependencies dep (λ _. dep) }

unfoldable pub add_in : List Dependency → Dependency → List Dependency
unfolding lookup_in
add_in ds dep = elim (lookup_in ds dep) [ some _ ↦ ds | none ↦ ds ++ dep ∷ [] ]

unfoldable pub add_dependency : Project → Dependency → Project
unfolding add_in
add_dependency p dep = record p { dependencies = add_in p.dependencies dep }

unfoldable pub add_dependencies : Project → List Dependency → Project
unfolding add_dependency
add_dependencies = for_each add_dependency

unfoldable pub add_build_plugin : Project → Plugin → Project
add_build_plugin p plugin = record p {
  build = record p.build { plugins = p.build.plugins ++ plugin ∷ [] };
}

-- The source appends here too.
unfoldable pub prepend_build_plugin : Project → Plugin → Project
prepend_build_plugin p plugin = record p {
  build = record p.build { plugins = p.build.plugins ++ plugin ∷ [] };
}

unfoldable pub has_repository : List Repository → Repository → Bool
has_repository [] repo = false
has_repository (r ∷ rs) repo =
    if r.id == repo.id && r.url == repo.url then true else has_repository rs repo

unfoldable pub add_repository : Project → Repository → Project
unfolding has_repository
add_repository p repo =
    if has_repository p.repositories repo
    then p
    else record p { repositories = p.repositories ++ repo ∷ [] }

unfoldable pub add_plugin_repository : Project → Repository → Project
unfolding has_repository
add_plugin_repository p repo =
    if has_repository p.plugin_repositories repo
    then p
    else record p { plugin_repositories = p.plugin_repositories ++ repo ∷ [] }

unfoldable pub new_dependency : Str → Str → Str → Dependency
new_dependency group_id artifact_id version = record {
  group_id = group_id;
  artifact_id = artifact_id;
  version = version;
  type = codes "jar";
  classifier = [];
  scope = [];
  exclusions = none;
}

unfoldable pub add_dependency_gav : Project → Str → Str → Str → Project
unfolding add_dependency new_dependency
add_dependency_gav p group_id artifact_id version =
    add_dependency p (new_dependency group_id artifact_id version)

-- A text that is no coordinate is dropped in silence.
unfoldable pub add_encoded_dependency_gav : Project → Str → Project
unfolding add_dependency parse_gav
add_encoded_dependency_gav p gav = elim (parse_gav gav) [ ok d ↦ add_dependency p d | err _ ↦ p ]

unfoldable pub has_exclusion : List Exclusion → Exclusion → Bool
has_exclusion [] x = false
has_exclusion (e ∷ es) x =
    if e.artifact_id == x.artifact_id && e.group_id == x.group_id then true else has_exclusion es x

unfoldable pub exclusions_of : Option (List Exclusion) → List Exclusion
exclusions_of none = []
exclusions_of (some es) = es

-- A list that was nil is made, also where nothing is added.
unfoldable pub exclude : Exclusion → Dependency → Dependency
unfolding has_exclusion exclusions_of
exclude x d =
    let es = exclusions_of d.exclusions in
    record d { exclusions = some (if has_exclusion es x then es else es ++ x ∷ []) }

unfoldable pub add_dependency_exclusion : Project → Dependency → Exclusion → Project
unfolding modify_in exclude
add_dependency_exclusion p dep x = record p {
  dependencies = modify_in p.dependencies dep (exclude x);
}

unfoldable pub add_dependency_exclusions : Project → Dependency → List Exclusion → Project
unfolding add_dependency_exclusion
add_dependency_exclusions p dep = for_each (λ q x. add_dependency_exclusion q dep x) p

abbrev pub policy : Bool → RepositoryPolicy
policy enabled = record { enabled = enabled; update_policy = []; checksum_policy = codes "fail" }

-- One attribute behind an `@`.
unfoldable pub apply_attribute : Repository → Str → Repository
apply_attribute r attribute =
    if attribute == codes "snapshots"
    then record r { snapshots = record r.snapshots { enabled = true } }
    else if attribute == codes "noreleases"
    then record r { releases = record r.releases { enabled = false } }
    else if has_prefix attribute (codes "id=")
    then record r { id = drop 3 attribute }
    else r

abbrev pub plain_repository : Str → Repository
plain_repository url = record {
  id = [];
  name = [];
  url = url;
  snapshots = policy false;
  releases = policy true;
}

-- The repository of a text, by the place of its first `@`.
unfoldable pub read_repository : Str → Option ℕ → Repository
unfolding apply_attribute split_byte
read_repository repo none = plain_repository repo
read_repository repo (some idx) =
    for_each apply_attribute (plain_repository (take idx repo))
      (split_byte (drop (suc idx) repo) b'@')

unfoldable pub new_repository : Str → Repository
unfolding index_byte
new_repository repo = read_repository repo (index_byte repo b'@')
