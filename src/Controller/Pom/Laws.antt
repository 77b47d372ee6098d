-- ===== src/Controller/Pom/Laws.antt =====
-- The dependencies of the project that a virtual database is built by.
use teiid_operator.Prelude.{
  ◌≡◌, refl, Bool, true, false, not, ◌||◌, some, List, [], ◌∷◌, ◌++◌, if◌then◌else◌, for_each,
  Option-cases, inl, inr,
}
use teiid_operator.Text.{Str, codes, text_beq}
use teiid_operator.Result.{Result, ok, err, Ensures, Ensures-bind}
use teiid_operator.Maven.Types.{Dependency, Project}
use teiid_operator.Maven.Gav.{parse_gav}
use teiid_operator.Maven.Project.{add_dependency, same_ga, lookup_in, lookup_dependency}
use teiid_operator.Maven.Project.Dependencies.{
  HasUniqueGa, add_dependency-HasUniqueGa, lookup_dependency-add_dependency,
}
use teiid_operator.Table.{lookup}
use teiid_operator.Vdbutil.{DatasourceInfo}
use teiid_operator.Vdb.{VirtualDatabase, ExposeType, expose_via_3scale}
use teiid_operator.Spring.Convert.{ConnectionFactory}
use teiid_operator.Controller.Config.{Config}
use teiid_operator.Controller.Pom.{
  create_maven_project, add_factory, add_gavs, add_all_factories, add_source, add_expose, add_if,
  complete_vdb_pom, generate_vdb_pom, spring, has_keycloak,
}

for_each-keeps :
    {A : Type 0} (P : Project → Type 0) (f : Project → A → Project)
    → ((p : Project) (a : A) → P p → P (f p a))
    → (p : Project) (xs : List A) → P p
    → P (for_each f p xs)
for_each-keeps P f k p [] h = h
for_each-keeps P f k p (x ∷ xs) h = for_each-keeps P f k (f p x) xs (k p x h)

-- What each added dependency keeps, the whole generation keeps.
module _ (config : Config) (P : Project → Type 0)
    (keep : (p : Project) (d : Dependency) → P p → P (add_dependency p d)) where
  add_if-keeps : (b : Bool) (d : Dependency) (p : Project) → P p → P (add_if config b d p)
  unfolding add_if
  add_if-keeps true d p h = keep p d h
  add_if-keeps false d p h = h

  add_factory-keeps : (p : Project) (cf : ConnectionFactory) → P p → P (add_factory config p cf)
  unfolding add_factory
  add_factory-keeps p cf h = keep p (spring config (codes "spring-data-" ++ cf.name)) h

  add_source-keeps : (p : Project) (s : DatasourceInfo) → P p → P (add_source config p s)
  unfolding add_source
  add_source-keeps p s h = elim (Option-cases (lookup config.connection_factories s.type)) [
    | inl e ↦ rw (e, add_source) h
    | inr (cf, e) ↦ rw (e, add_source) (add_factory-keeps p cf h)
  ]

  add_expose-keeps : (p : Project) (x : ExposeType) → P p → P (add_expose config p x)
  unfolding add_expose
  add_expose-keeps p expose_via_3scale h = keep p (spring config (codes "spring-keycloak")) h
  add_expose-keeps p _ h = h

  sourced-keeps :
      (all : Bool) (sources : List DatasourceInfo) (p : Project)
      → P p
      → P (
          if all
          then add_all_factories config p config.connection_factories
          else for_each (add_source config) p sources)
  unfolding add_all_factories
  sourced-keeps true sources p h =
      for_each-keeps P (λ q kv. add_factory config q kv.1) (λ q kv. add_factory-keeps q kv.1) p
        config.connection_factories h
  sourced-keeps false sources p h =
      for_each-keeps P (add_source config) add_source-keeps p sources h

  complete_vdb_pom-keeps :
      (vdb : VirtualDatabase) (sources : List DatasourceInfo) (all open_api ispn : Bool)
      (p : Project)
      → P p
      → P (complete_vdb_pom config vdb sources all open_api ispn p)
  unfolding complete_vdb_pom
  complete_vdb_pom-keeps vdb sources all open_api ispn p h = keep _ _ (
      add_if-keeps (not open_api || all) _ _ (
        add_if-keeps (open_api || all) _ _ (
          add_if-keeps (all || has_keycloak config vdb) _ _ (
            add_if-keeps ispn _ _ (
              for_each-keeps P (add_expose config) add_expose-keeps _ vdb.spec.expose
                (sourced-keeps all sources p h))))))

  add_gavs-keeps : (p : Project) (strs : List Str) → P p → Ensures P (add_gavs config p strs)
  unfolding add_gavs
  add_gavs-keeps p [] h = h
  add_gavs-keeps p (s ∷ strs) h =
      Ensures-bind (λ _. Unit {0}) P (parse_gav s) (λ d. add_gavs config (add_dependency p d) strs)
        (anything (parse_gav s)) (λ d _. add_gavs-keeps (add_dependency p d) strs (keep p d h))
    where
      anything : (r : Result Dependency) → Ensures (λ _. Unit {0}) r
      anything (ok d) = tt
      anything (err e) = tt

  generate_vdb_pom-keeps :
      (vdb : VirtualDatabase) (sources : List DatasourceInfo) (all open_api ispn : Bool)
      → P (create_maven_project config vdb.name)
      → Ensures P (generate_vdb_pom config vdb sources all open_api ispn)
  unfolding generate_vdb_pom
  generate_vdb_pom-keeps vdb sources all open_api ispn h =
      Ensures-bind P P
        (add_gavs config (create_maven_project config vdb.name) vdb.spec.build.source.dependencies)
        (λ p. ok (complete_vdb_pom config vdb sources all open_api ispn p))
        (add_gavs-keeps (create_maven_project config vdb.name) vdb.spec.build.source.dependencies h)
        (λ p k. complete_vdb_pom-keeps vdb sources all open_api ispn p k)

create_maven_project-HasUniqueGa :
    (config : Config) (name : Str) → HasUniqueGa (create_maven_project config name).dependencies
unfolding create_maven_project lookup_in same_ga text_beq
create_maven_project-HasUniqueGa config name = (refl, (refl, (refl, (refl, tt))))

-- The generated project has no two dependencies of one group and artifact, and a dependency of the plain
-- project stands in it as it was: no source and no coordinate of the custom resource replaces one.
pub generate_vdb_pom-dependencies :
    (config : Config) (vdb : VirtualDatabase) (sources : List DatasourceInfo)
    (all open_api ispn : Bool) (d x : Dependency)
    → lookup_dependency (create_maven_project config vdb.name) d ≡ some x
    → Ensures
        (λ p. HasUniqueGa p.dependencies × (lookup_dependency p d ≡ some x))
        (generate_vdb_pom config vdb sources all open_api ispn)
generate_vdb_pom-dependencies config vdb sources all open_api ispn d x h =
    generate_vdb_pom-keeps config
      (λ p. HasUniqueGa p.dependencies × (lookup_dependency p d ≡ some x))
      (λ p e k.
        (add_dependency-HasUniqueGa p e k.0, rw (lookup_dependency-add_dependency p e d, k.1)))
      vdb sources all open_api ispn (create_maven_project-HasUniqueGa config vdb.name, h)
