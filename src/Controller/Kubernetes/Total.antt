-- ===== src/Controller/Kubernetes/Total.antt =====
-- The errors of EnvironmentPropertiesExists, pkg/util/kubernetes/util.go.
use teiid_operator.Prelude.{
  ◌≡◌, refl, Option-cases, inl, inr, Bool, true, false, List, [], ◌∷◌, arith,
}
use teiid_operator.Text.{Str}
use teiid_operator.Result.{Result, ok, err, is_ok}
use teiid_operator.Exec.{Exec, pure, continue, ◌>>=◌}
use teiid_operator.Envvar.{EnvVar, EnvVarSource}
use teiid_operator.Vdb.{DataSourceObject}
use teiid_operator.Controller.Cluster.{Cluster}
use teiid_operator.Controller.Kubernetes.{
  succeeds, source_exists, environment_properties_exists, get_secret_ref_value,
  get_config_map_ref_value,
}
use teiid_operator.Controller.Initialize.{sources_exist}

-- It always returns a value.
abbrev pub IsTotal : {W A : Type 0} → Exec W A → Type 0
IsTotal {W} m = (w : W) → is_ok (m w).0 ≡ true

module _ {W A B : Type 0} where
  continue-ok :
      (r : Result A) (k : A → Exec W B) (w : W)
      → is_ok r ≡ true
      → ((a : A) → IsTotal (k a))
      → is_ok (continue r k w).0 ≡ true
  continue-ok (ok a) k w h t = t a w
  continue-ok (err e) k w h t = ground (arith, h)

  pub bind-IsTotal :
      (m : Exec W A) (k : A → Exec W B) → IsTotal m → ((a : A) → IsTotal (k a)) → IsTotal (m >>= k)
  bind-IsTotal m k h t w = continue-ok (m w).0 k (m w).1 (h w) t

verdict-ok :
    {W A : Type 0} (r : Result A) (w : W)
    → is_ok ((elim r as (λ _. Exec W Bool) [ ok _ ↦ pure true | err _ ↦ pure false ]) w).0 ≡ true
verdict-ok (ok a) w = refl
verdict-ok (err e) w = refl

succeeds-IsTotal : {W A : Type 0} (m : Exec W A) → IsTotal (succeeds m)
succeeds-IsTotal m w = verdict-ok (m w).0 (m w).1

module _ {W : Type 0} (cluster : Cluster W) where
  source_exists-IsTotal :
      (namespace : Str) (from : EnvVarSource) → IsTotal (source_exists cluster namespace from)
  unfolding source_exists
  source_exists-IsTotal namespace from w = elim (Option-cases from.config_map_key_ref) [
    | inr (s, e) ↦ rw e (succeeds-IsTotal (get_config_map_ref_value cluster namespace s) w)
    | inl e ↦ elim (Option-cases from.secret_key_ref) [
      | inr (s, f) ↦ rw (e, f) (succeeds-IsTotal (get_secret_ref_value cluster namespace s) w)
      | inl f ↦ rw (e, f)
    ]
  ]

  -- EnvironmentPropertiesExists returns no error, whatever the calls of the cluster return.
  pub environment_properties_exists-IsTotal :
      (namespace : Str) (envs : List EnvVar)
      → IsTotal (environment_properties_exists cluster namespace envs)
  unfolding environment_properties_exists
  environment_properties_exists-IsTotal namespace [] w = refl
  environment_properties_exists-IsTotal namespace (env ∷ envs) w =
      elim (Option-cases env.value_from) [
        | inl e ↦ rw e (environment_properties_exists-IsTotal namespace envs w)
        | inr (from, e) ↦ rw e (
            bind-IsTotal (source_exists cluster namespace from) _
              (source_exists-IsTotal namespace from)
              (elim [
                | true ↦ environment_properties_exists-IsTotal namespace envs
                | false ↦ λ w'. refl
              ])
              w)
      ]

  pub sources_exist-IsTotal :
      (namespace : Str) (ds : List DataSourceObject) → IsTotal (sources_exist cluster namespace ds)
  unfolding sources_exist
  sources_exist-IsTotal namespace [] w = refl
  sources_exist-IsTotal namespace (d ∷ ds) w =
      bind-IsTotal (environment_properties_exists cluster namespace d.properties) _
        (environment_properties_exists-IsTotal namespace d.properties)
        (elim [ true ↦ sources_exist-IsTotal namespace ds | false ↦ λ w'. refl ]) w
