-- ===== src/Controller/Kubernetes/Names.antt =====
-- ValidateEnvironmentPropertyNames of pkg/util/kubernetes/util.go.
use teiid_operator.Prelude.{◌≡◌, refl, ◌↔◌, Bool, true, ◌&&◌, List, [], ◌∷◌, arith}
use teiid_operator.Regex.Words.{starts_all, find_anchored-word_regex}
use teiid_operator.Result.{ok}
use teiid_operator.Envvar.{EnvVar}
use teiid_operator.Controller.Kubernetes.{
  validate_environment_property_names, is_capital, is_capital_word,
}

abbrev pub all_capital : List EnvVar → Bool
all_capital [] = true
all_capital (env ∷ envs) = starts_all is_capital is_capital_word env.name && all_capital envs

-- The variables are accepted exactly when each name is a capital letter followed by capital letters,
-- digits and underscores.
pub validate_environment_property_names_iff :
    (envs : List EnvVar)
    → (validate_environment_property_names envs ≡ ok tt) ↔ (all_capital envs ≡ true)
unfolding validate_environment_property_names
validate_environment_property_names_iff [] = (λ h. refl, λ h. refl)
validate_environment_property_names_iff (env ∷ envs) =
    let same = find_anchored-word_regex is_capital is_capital_word env.name in
    let rest = validate_environment_property_names_iff envs in
    (λ h. ground (arith, same, rest.0), λ h. ground (arith, same, rest.1))
