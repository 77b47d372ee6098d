-- ===== src/Envvar/Lookup.antt =====
-- pkg/util/envvar/envvar.go: what Get finds after each operation.
use teiid_operator.Prelude.{
  ◌≡◌, refl, Option, none, some, List, [], ◌∷◌, ◌++◌, arith, ◌==◌, if◌then◌else◌, or_else,
  Option-cases, inl, inr, ◌∙◌,
}
use teiid_operator.Text.{Str, text_Eq, text_beq_iff}
use teiid_operator.Envvar.Defs.{
  EnvVar, get, modify, set_val, set_var, combine, clone, add_missing, upsert,
}

pub name-get : (vars : List EnvVar) (k : Str) (e : EnvVar) → get vars k ≡ some e → e.name ≡ k
unfolding get
name-get [] k e h = cc
name-get (v ∷ vars) k e h = ground (arith, text_beq_iff v.name k, name-get vars k e)

pub get-append : (xs ys : List EnvVar) (k : Str) → get (xs ++ ys) k ≡ or_else (get xs k) (get ys k)
unfolding get
get-append [] ys k = refl
get-append (v ∷ xs) ys k = ground (arith, get-append xs ys k)

abbrev pub map_option : Option EnvVar → (EnvVar → EnvVar) → Option EnvVar
map_option none f = none
map_option (some e) f = some (f e)

-- A write through the pointer is seen at its name and nowhere else.
pub get-modify :
    (vars : List EnvVar) (n k : Str) (f : EnvVar → EnvVar)
    → ((e : EnvVar) → (f e).name ≡ e.name)
    → get (modify vars n f) k ≡ (if n == k then map_option (get vars k) f else get vars k)
unfolding get modify
get-modify [] n k f h = ground arith
get-modify (v ∷ vars) n k f h = ground (
  arith,
  h v,
  get-modify vars n k f h,
  text_beq_iff v.name n,
  text_beq_iff v.name k,
  text_beq_iff n k,
  text_beq_iff (f v).name k,
)

abbrev pub write_over : EnvVar → EnvVar → EnvVar
write_over v e = record e { value = v.value; value_from = v.value_from }

module _ (vars : List EnvVar) (v : EnvVar) where
  pub upsert_new : get vars v.name ≡ none → upsert vars v ≡ vars ++ v ∷ []
  unfolding upsert
  upsert_new e = rw (e, upsert)

  pub upsert_old :
      {a : EnvVar} → get vars v.name ≡ some a → upsert vars v ≡ modify vars v.name (write_over v)
  unfolding upsert
  upsert_old e = rw (e, upsert)

-- What a setter writes is found at its name, and nothing else changes.
pub get-upsert :
    (vars : List EnvVar) (v : EnvVar) (k : Str)
    → get (upsert vars v) k ≡ (if v.name == k then some v else get vars k)
get-upsert vars v k = elim (Option-cases (get vars v.name)) [
  | inl e ↦
      rw (upsert_new vars v e)
        (unfold get in ground (arith, e, get-append vars (v ∷ []) k, text_beq_iff v.name k))
  | inr (a, e) ↦ rw (upsert_old vars v e) (
      ground (
        arith,
        e,
        name-get vars v.name a e,
        text_beq_iff v.name k,
        get-modify vars v.name k (write_over v) (λ x. refl),
      ))
]

module _ (vars : List EnvVar) (k : Str) where
  pub get-set_var :
      (v : EnvVar) → get (set_var vars v) k ≡ (if v.name == k then some v else get vars k)
  unfolding set_var
  get-set_var v = get-upsert vars v k

  pub get-set_val :
      (n value : Str)
      → get (set_val vars n value) k ≡ (
          if n == k
          then some (record { name = n; value = value; value_from = none })
          else get vars k)
  unfolding set_val
  get-set_val n value = get-upsert vars (record { name = n; value = value; value_from = none }) k

pub get-add_missing :
    (envs vs : List EnvVar) (k : Str)
    → get (add_missing envs vs) k ≡ or_else (get envs k) (get vs k)
unfolding add_missing
get-add_missing envs [] k = ground arith
get-add_missing envs (v ∷ vs) k = elim (Option-cases (get envs v.name)) [
  | inl e ↦ rw e (
      get-add_missing (set_var envs v) vs k
      ∙ ground (arith, e, get-set_var envs k v, text_beq_iff v.name k))
  | inr (a, e) ↦ rw e (get-add_missing envs vs k ∙ ground (arith, e, text_beq_iff v.name k))
]

-- Combine finds what the first set has, and else what the second has.
pub get-combine : (a b : List EnvVar) (k : Str) → get (combine a b) k ≡ or_else (get a k) (get b k)
unfolding combine
get-combine a b k = ground (arith, get-add_missing (add_missing [] a) b k, get-add_missing [] a k)

pub get-clone : (vars : List EnvVar) (k : Str) → get (clone vars) k ≡ get vars k
unfolding clone
get-clone vars k = ground (arith, get-add_missing [] vars k)
