-- ===== src/Envvar/Unique.antt =====
-- pkg/util/envvar/envvar.go: lists that have each name once.
use teiid_operator.Prelude.{
  ◌≡◌, refl, none, List, [], ◌∷◌, ◌++◌, arith, ◌==◌, Bool-cases, inl, inr, Option-cases, All,
  All-append,
}
use teiid_operator.Text.{Str, text_Eq, text_beq_iff}
use teiid_operator.Envvar.Defs.{EnvVar, get, modify, set_var, combine, add_missing, upsert}
use teiid_operator.Envvar.Lookup.{get-append, get-modify, upsert_new, upsert_old, write_over}

abbrev pub IsUnique : List EnvVar → Type 0
IsUnique [] = Unit {0}
IsUnique (v ∷ vars) = (get vars v.name ≡ none) × IsUnique vars

append-IsUnique :
    (xs : List EnvVar) (v : EnvVar) → IsUnique xs → get xs v.name ≡ none → IsUnique (xs ++ v ∷ [])
unfolding get
append-IsUnique [] v u h = (refl, tt)
append-IsUnique (x ∷ xs) v u h = (
  ground (
    arith,
    get-append xs (v ∷ []) x.name,
    text_beq_iff x.name v.name,
    text_beq_iff v.name x.name,
  ),
  append-IsUnique xs v u.1 (ground (arith, h, text_beq_iff x.name v.name)),
)

modify-IsUnique :
    (xs : List EnvVar) (n : Str) (f : EnvVar → EnvVar)
    → ((e : EnvVar) → (f e).name ≡ e.name)
    → IsUnique xs
    → IsUnique (modify xs n f)
unfolding get modify
modify-IsUnique [] n f h u = tt
modify-IsUnique (x ∷ xs) n f h u = elim (Bool-cases (x.name == n)) [
  | inl e ↦ rw e (rw (h x) u.0, u.1)
  | inr e ↦ rw e (ground (arith, get-modify xs n x.name f h, u.0), modify-IsUnique xs n f h u.1)
]

pub upsert-IsUnique : (vars : List EnvVar) (v : EnvVar) → IsUnique vars → IsUnique (upsert vars v)
upsert-IsUnique vars v u = elim (Option-cases (get vars v.name)) [
  | inl e ↦ rw (upsert_new vars v e) (append-IsUnique vars v u e)
  | inr (a, e) ↦ rw (upsert_old vars v e) (modify-IsUnique vars v.name (write_over v) (λ x. refl) u)
]

pub set_var-IsUnique : (vars : List EnvVar) (v : EnvVar) → IsUnique vars → IsUnique (set_var vars v)
unfolding set_var
set_var-IsUnique = upsert-IsUnique

pub add_missing-IsUnique : (envs vs : List EnvVar) → IsUnique envs → IsUnique (add_missing envs vs)
unfolding add_missing
add_missing-IsUnique envs [] u = u
add_missing-IsUnique envs (v ∷ vs) u = elim (Option-cases (get envs v.name)) [
  | inl e ↦ rw e (add_missing-IsUnique (set_var envs v) vs (set_var-IsUnique envs v u))
  | inr (a, e) ↦ rw e (add_missing-IsUnique envs vs u)
]

-- Whatever Combine is given, its result names each variable once.
pub combine-IsUnique : (a b : List EnvVar) → IsUnique (combine a b)
unfolding combine
combine-IsUnique a b = add_missing-IsUnique (add_missing [] a) b (add_missing-IsUnique [] a tt)

-- All names have the property `P`.
abbrev pub AllNamed : (Str → Type 0) → List EnvVar → Type 0
AllNamed P = All (λ v. P v.name)

modify-AllNamed :
    (P : Str → Type 0) (vars : List EnvVar) (n : Str) (v : EnvVar)
    → AllNamed P vars
    → AllNamed P (modify vars n (write_over v))
unfolding modify
modify-AllNamed P [] n v h = tt
modify-AllNamed P (x ∷ vars) n v h = elim (Bool-cases (x.name == n)) [
  | inl e ↦ rw e h
  | inr e ↦ rw e (h.0, modify-AllNamed P vars n v h.1)
]

pub upsert-AllNamed :
    (P : Str → Type 0) (vars : List EnvVar) (v : EnvVar)
    → P v.name
    → AllNamed P vars
    → AllNamed P (upsert vars v)
upsert-AllNamed P vars v p h = elim (Option-cases (get vars v.name)) [
  | inl e ↦ rw (upsert_new vars v e) (All-append (λ x. P x.name) vars (v ∷ []) h (p, tt))
  | inr (a, e) ↦ rw (upsert_old vars v e) (modify-AllNamed P vars v.name v h)
]
