-- ===== src/Tests/Builds.antt =====
-- Maven coordinates, projects and downloads.
use teiid_operator.Maven.Download.{Remote}
use teiid_operator.Prelude.{ℕ, ◌≡◌, refl, ◌⊎◌, true, false, some, [], ◌∷◌, or_else}
use teiid_operator.Text.{codes, text_beq}
use teiid_operator.Result.{Ensures, ok, err, failed}
use teiid_operator.Maven.Types.{Project}
use teiid_operator.Regex.{none_of}
use teiid_operator.Maven.Gav.{parse_gav}
use teiid_operator.Maven.Gav.Groups.{IsPart}
use teiid_operator.Maven.Gav.Roundtrip.{gav_text, coordinates, parse_gav-gav_text}
use teiid_operator.Maven.Project.{add_dependencies, lookup_dependency, lookup_in, same_ga}
use teiid_operator.Maven.Project.Dependencies.{
  HasUniqueGa, add_dependencies-HasUniqueGa, lookup_dependency-add_dependencies,
}
use teiid_operator.Maven.Download.{download_from}
use teiid_operator.Maven.Download.Search.{AllFail, Serves, download_from_outcome}
use teiid_operator.Controller.Pom.{create_maven_project, generate_vdb_pom, spring}
use teiid_operator.Controller.Pom.Laws.{generate_vdb_pom-dependencies}
use teiid_operator.Vdb.{builder_image_finished}
use teiid_operator.Tests.Samples.{offline, resource, config, driver}

teiid-IsPart : IsPart (codes "teiid")
unfolding none_of
teiid-IsPart = (refl, (refl, (refl, (refl, (refl, tt)))))

parse_gav-gav_text_example :
    (parse_gav (gav_text (codes "teiid" ∷ codes "teiid" ∷ codes "teiid" ∷ []))
      ≡ ok (coordinates (codes "teiid") (codes "teiid") (codes "jar") [] (codes "teiid")))
    × (parse_gav (gav_text (codes "teiid" ∷ codes "teiid" ∷ codes "teiid" ∷ codes "teiid" ∷ []))
        ≡ ok (coordinates (codes "teiid") (codes "teiid") (codes "teiid") [] (codes "teiid")))
    × (parse_gav (
          gav_text
            (codes "teiid" ∷ codes "teiid" ∷ codes "teiid" ∷ codes "teiid" ∷ codes "teiid" ∷ []))
        ≡ ok (
            coordinates
              (codes "teiid")
              (codes "teiid")
              (codes "teiid")
              (codes "teiid")
              (codes "teiid")))
parse_gav-gav_text_example =
    parse_gav-gav_text (codes "teiid") (codes "teiid") (codes "teiid") (codes "teiid")
      (codes "teiid") teiid-IsPart teiid-IsPart teiid-IsPart teiid-IsPart teiid-IsPart

abbrev unreachable : Remote ℕ
unreachable = offline

download_from_outcome_example :
    (Serves unreachable
        (codes "/tmp/f")
        (codes "d.jar")
        ((codes "a", codes "http://a") ∷ [])
        3
        (download_from unreachable
          (codes "/tmp/f")
          (codes "d.jar")
          ((codes "a", codes "http://a") ∷ [])
          3).1
      × ((download_from unreachable
            (codes "/tmp/f")
            (codes "d.jar")
            ((codes "a", codes "http://a") ∷ [])
            3).0
          ≡ ok (codes "/tmp/f")))
    ⊎ (AllFail unreachable
          (codes "/tmp/f")
          (codes "d.jar")
          ((codes "a", codes "http://a") ∷ [])
          3
          (download_from unreachable
            (codes "/tmp/f")
            (codes "d.jar")
            ((codes "a", codes "http://a") ∷ [])
            3).1
        × ((download_from unreachable
              (codes "/tmp/f")
              (codes "d.jar")
              ((codes "a", codes "http://a") ∷ [])
              3).0
            ≡ err (
                failed
                  (codes "Failed to download the artifact from configured maven repositories"))))
download_from_outcome_example =
    download_from_outcome unreachable (codes "/tmp/f") (codes "d.jar")
      ((codes "a", codes "http://a") ∷ []) 3

abbrev project : Project
project = create_maven_project config (codes "portfolio")

project-HasUniqueGa : HasUniqueGa project.dependencies
unfolding create_maven_project lookup_in same_ga text_beq
project-HasUniqueGa = (refl, (refl, (refl, (refl, tt))))

add_dependencies-HasUniqueGa_example :
    HasUniqueGa
      (add_dependencies project
        (driver (codes "p") ∷ driver (codes "q") ∷ driver (codes "p") ∷ [])).dependencies
add_dependencies-HasUniqueGa_example =
    add_dependencies-HasUniqueGa project
      (driver (codes "p") ∷ driver (codes "q") ∷ driver (codes "p") ∷ []) project-HasUniqueGa

lookup_dependency-add_dependencies_example :
    lookup_dependency (add_dependencies project (driver (codes "p") ∷ [])) (driver (codes "p"))
    ≡ or_else
        (lookup_dependency project (driver (codes "p")))
        (lookup_in (driver (codes "p") ∷ []) (driver (codes "p")))
lookup_dependency-add_dependencies_example =
    lookup_dependency-add_dependencies project (driver (codes "p") ∷ []) (driver (codes "p"))

starter_found :
    lookup_dependency project (spring config (codes "teiid-spring-boot-starter"))
    ≡ some (spring config (codes "teiid-spring-boot-starter"))
unfolding create_maven_project lookup_dependency lookup_in same_ga text_beq
starter_found = refl

generate_vdb_pom-dependencies_example :
    Ensures
      (λ p.
        HasUniqueGa p.dependencies
        × (lookup_dependency p (spring config (codes "teiid-spring-boot-starter"))
            ≡ some (spring config (codes "teiid-spring-boot-starter"))))
      (generate_vdb_pom config
        (resource builder_image_finished)
        (record { name = codes "a"; type = codes "h2" } ∷ [])
        false
        true
        false)
generate_vdb_pom-dependencies_example =
    generate_vdb_pom-dependencies config (resource builder_image_finished)
      (record { name = codes "a"; type = codes "h2" } ∷ []) false true false
      (spring config (codes "teiid-spring-boot-starter"))
      (spring config (codes "teiid-spring-boot-starter")) starter_found
