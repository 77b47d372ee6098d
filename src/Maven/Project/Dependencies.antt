-- ===== src/Maven/Project/Dependencies.antt =====
-- pkg/util/maven/maven_project.go: the dependencies of a project.
use teiid_operator.Prelude.{
  ◌≡◌, refl, ◌∙◌, Bool, true, false, Option, none, some, List, [], ◌∷◌, ◌++◌, or_else, Option-cases,
  inl, inr, arith,
}
use teiid_operator.Text.{text_Eq, text_beq_iff}
use teiid_operator.Maven.Types.{Dependency, Project}
use teiid_operator.Maven.Project.{
  same_ga, lookup_in, lookup_dependency, add_in, add_dependency, add_dependencies,
}

module _ (d e f : Dependency) where
  -- Coordinates are compared by an equivalence.
  same_ga_trans : same_ga d e ≡ true → same_ga d f ≡ same_ga e f
  unfolding same_ga
  same_ga_trans h =
      ground (arith, text_beq_iff d.group_id e.group_id, text_beq_iff d.artifact_id e.artifact_id)

  same_ga_sym : same_ga d e ≡ same_ga e d
  unfolding same_ga
  same_ga_sym = ground (
    arith,
    text_beq_iff d.group_id e.group_id,
    text_beq_iff d.artifact_id e.artifact_id,
    text_beq_iff e.group_id d.group_id,
    text_beq_iff e.artifact_id d.artifact_id,
  )

lookup_in-append :
    (xs ys : List Dependency) (e : Dependency)
    → lookup_in (xs ++ ys) e ≡ or_else (lookup_in xs e) (lookup_in ys e)
unfolding lookup_in
lookup_in-append [] ys e = refl
lookup_in-append (x ∷ xs) ys e = ground (arith, lookup_in-append xs ys e)

-- A look-up depends on the coordinates only.
lookup_in-same :
    (ds : List Dependency) (d e : Dependency) → same_ga d e ≡ true → lookup_in ds d ≡ lookup_in ds e
unfolding lookup_in
lookup_in-same [] d e h = refl
lookup_in-same (x ∷ ds) d e h =
    ground (arith, lookup_in-same ds d e h, same_ga_sym x d, same_ga_sym x e, same_ga_trans d e x)

abbrev pub only_if : Bool → Dependency → Option Dependency
only_if true d = some d
only_if false d = none

module _ (ds : List Dependency) (d : Dependency) where
  add_in_new : lookup_in ds d ≡ none → add_in ds d ≡ ds ++ d ∷ []
  unfolding add_in
  add_in_new h = rw (h, add_in)

  add_in_old : {x : Dependency} → lookup_in ds d ≡ some x → add_in ds d ≡ ds
  unfolding add_in
  add_in_old h = rw (h, add_in)

lookup_in-add_in :
    (ds : List Dependency) (d e : Dependency)
    → lookup_in (add_in ds d) e ≡ or_else (lookup_in ds e) (only_if (same_ga d e) d)
lookup_in-add_in ds d e = elim (Option-cases (lookup_in ds d)) [
  | inl h ↦
      rw (add_in_new ds d h, lookup_in-append ds (d ∷ []) e) (unfold lookup_in in ground arith)
  | inr (x, h) ↦ rw (add_in_old ds d h) (ground (arith, h, lookup_in-same ds d e))
]

-- The coordinates of no dependency stand before it in the list.
abbrev pub HasUniqueGa : List Dependency → Type 0
HasUniqueGa [] = Unit {0}
HasUniqueGa (d ∷ ds) = (lookup_in ds d ≡ none) × HasUniqueGa ds

append-HasUniqueGa :
    (ds : List Dependency) (d : Dependency)
    → HasUniqueGa ds
    → lookup_in ds d ≡ none
    → HasUniqueGa (ds ++ d ∷ [])
unfolding lookup_in
append-HasUniqueGa [] d u h = (refl, tt)
append-HasUniqueGa (x ∷ ds) d u h = (
  ground (arith, lookup_in-append ds (d ∷ []) x, same_ga_sym x d, h, u.0),
  append-HasUniqueGa ds d u.1 (ground (arith, h)),
)

add_in-HasUniqueGa :
    (ds : List Dependency) (d : Dependency) → HasUniqueGa ds → HasUniqueGa (add_in ds d)
add_in-HasUniqueGa ds d u = elim (Option-cases (lookup_in ds d)) [
  | inl h ↦ rw (add_in_new ds d h) (append-HasUniqueGa ds d u h)
  | inr (x, h) ↦ rw (add_in_old ds d h) u
]

-- The dependency that was there first stays; a new one is found by its coordinates.
pub lookup_dependency-add_dependency :
    (p : Project) (d e : Dependency)
    → lookup_dependency (add_dependency p d) e
      ≡ or_else (lookup_dependency p e) (only_if (same_ga d e) d)
unfolding lookup_dependency add_dependency
lookup_dependency-add_dependency p d e = lookup_in-add_in p.dependencies d e

pub add_dependency-HasUniqueGa :
    (p : Project) (d : Dependency)
    → HasUniqueGa p.dependencies
    → HasUniqueGa (add_dependency p d).dependencies
unfolding add_dependency
add_dependency-HasUniqueGa p d u = add_in-HasUniqueGa p.dependencies d u

-- A project that has no two dependencies of one group and artifact has no two after a list was added.
pub add_dependencies-HasUniqueGa :
    (p : Project) (ds : List Dependency)
    → HasUniqueGa p.dependencies
    → HasUniqueGa (add_dependencies p ds).dependencies
unfolding add_dependencies
add_dependencies-HasUniqueGa p [] u = u
add_dependencies-HasUniqueGa p (d ∷ ds) u =
    add_dependencies-HasUniqueGa (add_dependency p d) ds (add_dependency-HasUniqueGa p d u)

-- After a list was added, a project finds for the coordinates of `e` what it found before, and else the
-- first of the list that has them.
pub lookup_dependency-add_dependencies :
    (p : Project) (ds : List Dependency) (e : Dependency)
    → lookup_dependency (add_dependencies p ds) e ≡ or_else (lookup_dependency p e) (lookup_in ds e)
unfolding add_dependencies
lookup_dependency-add_dependencies p [] e = unfold lookup_in in ground arith
lookup_dependency-add_dependencies p (d ∷ ds) e =
    lookup_dependency-add_dependencies (add_dependency p d) ds e
    ∙ (unfold lookup_in in ground (arith, lookup_dependency-add_dependency p d e))
