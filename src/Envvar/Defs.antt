-- ===== src/Envvar/Defs.antt =====
-- pkg/util/envvar/envvar.go: lists of environment variables, and the operations on them.
use teiid_operator.Prelude.{Option, none, some, List, [], ◌∷◌, ◌++◌, ◌==◌, if◌then◌else◌}
use teiid_operator.Text.{Str, text_Eq}

-- corev1.SecretKeySelector and corev1.ConfigMapKeySelector
pub record KeySelector : Type 0 where
  pub name : Str
  pub key : Str

-- corev1.EnvVarSource, with the sources that the operator reads or writes
pub record EnvVarSource : Type 0 where
  pub field_ref : Option Str
  pub config_map_key_ref : Option KeySelector
  pub secret_key_ref : Option KeySelector

-- corev1.EnvVar
pub record EnvVar : Type 0 where
  pub name : Str
  pub value : Str
  pub value_from : Option EnvVarSource

-- Get returns a pointer to the first entry of that name; reading through it gives the entry.
unfoldable pub get : List EnvVar → Str → Option EnvVar
get [] name = none
get (v ∷ vars) name = if v.name == name then some v else get vars name

-- Writing through the pointer that Get returns.
unfoldable pub modify : List EnvVar → Str → (EnvVar → EnvVar) → List EnvVar
modify [] name f = []
modify (v ∷ vars) name f = if v.name == name then f v ∷ vars else v ∷ modify vars name f

unfoldable pub remove : List EnvVar → Str → List EnvVar
remove [] name = []
remove (v ∷ vars) name = if v.name == name then vars else v ∷ remove vars name

-- What every setter does: it writes through the pointer that Get returns, and appends a new entry
-- where Get returns nil.
unfoldable pub upsert : List EnvVar → EnvVar → List EnvVar
unfolding get modify
upsert vars v = elim (get vars v.name) [
  | some _ ↦ modify vars v.name (λ e. record e { value = v.value; value_from = v.value_from })
  | none ↦ vars ++ v ∷ []
]

unfoldable pub set_val : List EnvVar → Str → Str → List EnvVar
unfolding upsert
set_val vars name value = upsert vars (record { name = name; value = value; value_from = none })

unfoldable pub set_var : List EnvVar → EnvVar → List EnvVar
unfolding upsert
set_var vars v = upsert vars v

abbrev pub field_source : Str → EnvVarSource
field_source path = record {
  field_ref = some path;
  config_map_key_ref = none;
  secret_key_ref = none;
}

unfoldable pub set_val_from : List EnvVar → Str → Str → List EnvVar
unfolding upsert
set_val_from vars name path =
    upsert vars (record { name = name; value = []; value_from = some (field_source path) })

unfoldable pub set_value_from : List EnvVar → Str → Option EnvVarSource → List EnvVar
unfolding upsert
set_value_from vars name from = upsert vars (record { name = name; value = []; value_from = from })

-- The loop that Combine runs over each of its sets, and Clone over its one.
unfoldable pub add_missing : List EnvVar → List EnvVar → List EnvVar
unfolding get set_var
add_missing envs [] = envs
add_missing envs (v ∷ vs) =
    add_missing (elim (get envs v.name) [ none ↦ set_var envs v | some _ ↦ envs ]) vs

unfoldable pub combine : List EnvVar → List EnvVar → List EnvVar
unfolding add_missing
combine set_a set_b = add_missing (add_missing [] set_a) set_b

unfoldable pub clone : List EnvVar → List EnvVar
unfolding add_missing
clone from = add_missing [] from
