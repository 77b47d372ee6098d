-- ===== src/Controller/Kubernetes.antt =====
-- pkg/util/kubernetes/util.go: reading secrets and config maps, and the checks on environments.
pub mod Names
pub mod Total
pub mod Resource
use teiid_operator.Prelude.{
  ℕ, Bool, true, false, ◌&&◌, ◌||◌, Option, none, some, List, [], ◌∷◌, ◌++◌, ◌==◌, leb, nat_Eq,
  if◌then◌else◌,
}
use teiid_operator.Text.{Str, text_Eq, codes, contains}
use teiid_operator.Table.{lookup}
use teiid_operator.Result.{Err, Result, ok, err, not_found, conflict, panic, failed}
use teiid_operator.Exec.{Exec, pure, raise, lift, attempt, ◌>>=◌, ◌>>◌}
use teiid_operator.Regex.{Re, set, seq, star, eol, find_anchored, is_digit}
use teiid_operator.Envvar.{EnvVar, EnvVarSource, KeySelector}
use teiid_operator.Vdb.{ValueSource}
use teiid_operator.Controller.Cluster.{Cluster, Secret, ConfigMap}

abbrev value_of : Option Str → Str → Str → Str → Result Str
value_of none kind key name =
    err (failed (codes "key " ++ key ++ codes " not found in " ++ kind ++ codes " " ++ name))
value_of (some v) kind key name = ok v

abbrev pub is_capital : ℕ → Bool
is_capital c = leb b'A' c && leb c b'Z'

abbrev pub is_capital_word : ℕ → Bool
is_capital_word c = is_capital c || (is_digit c || c == b'_')

-- ^[A-Z]{1}[A-Z0-9_]*$
abbrev pub environment_name_regex : Re
environment_name_regex = seq (set is_capital) (seq (star (set is_capital_word)) eol)

unfoldable pub validate_environment_property_names : List EnvVar → Result (Unit {0})
unfolding find_anchored is_digit
validate_environment_property_names [] = ok tt
validate_environment_property_names (env ∷ envs) =
    elim (find_anchored environment_name_regex env.name) [
      | some _ ↦ validate_environment_property_names envs
      | none ↦ err (
          failed (
            codes "The environment property with name "
            ++ env.name
            ++ codes
                " does not confirm to naming rules. Can not contain any special characters/hyphens/periods"))
    ]

-- Does a call succeed?
abbrev pub succeeds : {W A : Type 0} → Exec W A → Exec W Bool
succeeds m = do r ← attempt m; elim r [ ok _ ↦ pure true | err _ ↦ pure false ]

module _ {W : Type 0} (cluster : Cluster W) where
  open cluster use {
    get_secret, get_config_map, create_secret, set_controller_reference, server_groups,
  }

  unfoldable pub has_secret : Str → Str → Exec W Bool
  has_secret name namespace = succeeds (get_secret namespace name)

  unfoldable pub has_config_map : Str → Str → Exec W Bool
  has_config_map name namespace = succeeds (get_config_map namespace name)

  unfoldable pub get_secret_ref_value : Str → KeySelector → Exec W Str
  unfolding lookup
  get_secret_ref_value namespace selector = do
    secret ← get_secret namespace selector.name
    lift
        (value_of (lookup secret.data_map selector.key) (codes "secret") selector.key selector.name)

  unfoldable pub get_config_map_ref_value : Str → KeySelector → Exec W Str
  unfolding lookup
  get_config_map_ref_value namespace selector = do
    cm ← get_config_map namespace selector.name
    lift
        (value_of (lookup cm.data_map selector.key) (codes "config map") selector.key selector.name)

  unfoldable pub resolve_value_source : Str → ValueSource → Exec W Str
  unfolding get_secret_ref_value get_config_map_ref_value
  resolve_value_source namespace source = elim source.config_map_key_ref [
    | some cm ↦ elim source.secret_key_ref [
      | some _ ↦ raise (failed (codes "value source has bot config map and secret configured"))
      | none ↦ get_config_map_ref_value namespace cm
    ]
    | none ↦ elim source.secret_key_ref [
      | some secret ↦ get_secret_ref_value namespace secret
      | none ↦ pure []
    ]
  ]

  -- The test on one variable's source.
  unfoldable pub source_exists : Str → EnvVarSource → Exec W Bool
  unfolding get_secret_ref_value get_config_map_ref_value
  source_exists namespace from = elim from.config_map_key_ref [
    | some selector ↦ succeeds (get_config_map_ref_value namespace selector)
    | none ↦ elim from.secret_key_ref [
      | some selector ↦ succeeds (get_secret_ref_value namespace selector)
      | none ↦ pure false
    ]
  ]

  unfoldable pub environment_properties_exists : Str → List EnvVar → Exec W Bool
  unfolding source_exists
  environment_properties_exists namespace [] = pure true
  environment_properties_exists namespace (env ∷ envs) = elim env.value_from [
    | none ↦ environment_properties_exists namespace envs
    | some from ↦
        source_exists namespace from
        >>= elim [ true ↦ environment_properties_exists namespace envs | false ↦ pure false ]
  ]

  unfoldable pub source_revision : Str → EnvVarSource → Exec W Str
  source_revision namespace from = elim from.config_map_key_ref [
    | some selector ↦ do cm ← get_config_map namespace selector.name; pure cm.resource_version
    | none ↦ elim from.secret_key_ref [
      | some selector ↦ do s ← get_secret namespace selector.name; pure s.resource_version
      | none ↦ pure []
    ]
  ]

  unfoldable pub revision_of_config_map_or_secret : Str → EnvVar → Exec W Str
  unfolding source_revision
  revision_of_config_map_or_secret namespace env =
      if env.value == []
      then elim env.value_from [
        | none ↦ pure env.value
        | some from ↦ source_revision namespace from
      ]
      else pure env.value

  -- CreateSecret, with an owner.
  unfoldable pub create_owned_secret : Str → Str → List (Str × Str) → Exec W (Unit {0})
  create_owned_secret name namespace content = do
    set_controller_reference name
    create_secret namespace name content

  pub any_contains : List Str → Str → Bool
  unfolding contains
  any_contains [] name = false
  any_contains (g ∷ gs) name = contains g name || any_contains gs name

  unfoldable pub has_server_group : Str → Exec W Bool
  unfolding any_contains
  has_server_group name = do
    groups ← attempt server_groups
    pure (elim groups [ ok names ↦ any_contains names name | err _ ↦ false ])

  unfoldable pub is_openshift : Exec W Bool
  unfolding has_server_group
  is_openshift = has_server_group (codes "openshift.io")

  -- EnsureObject: an object is created where the read before it did not find one.
  unfoldable pub ensure_object : {A : Type 0} → Result A → Exec W (Unit {0}) → Exec W (Unit {0})
  ensure_object (ok _) create = pure tt
  ensure_object (err not_found) create = create
  ensure_object (err e) create = raise e
