-- ===== src/Spring/Convert.antt =====
-- convert2SpringProperties of pkg/controller/virtualdatabase/convert-ds-properties.go.
pub mod Laws
use teiid_operator.Prelude.{
  ℕ, Bool, true, false, Option, none, some, List, [], ◌∷◌, ◌++◌, ◌==◌, if◌then◌else◌,
}
use teiid_operator.Text.{Str, text_Eq, codes, contains, to_lower, equal_fold}
use teiid_operator.Result.{Result, ok, err, failed, ◌>>=◌}
use teiid_operator.Table.{lookup}
use teiid_operator.Envvar.{EnvVar, EnvVarSource, set_val, set_value_from}
use teiid_operator.Vdbutil.{DatasourceInfo}
use teiid_operator.Vdb.{DataSourceObject}
use teiid_operator.Spring.Names.{sanitize_name, env_ready, remove_dash}

-- ConnectionFactory of pkg/util/conf/connection_factories.go, with the fields that are read.
pub record ConnectionFactory : Type 0 where
  pub name : Str
  pub spring_boot_property_prefix : Str

unfoldable pub find_configured_properties : Str → List DataSourceObject → Option DataSourceObject
unfolding equal_fold
find_configured_properties name [] = none
find_configured_properties name (ds ∷ rest) =
    if equal_fold ds.name name then some ds else find_configured_properties name rest

abbrev pub blank : Str
blank = codes " "

unfoldable pub property_variable : Str → Str → EnvVar → Str
property_variable prefix datasource_name p =
    env_ready (prefix ++ codes "_" ++ datasource_name ++ codes "_" ++ sanitize_name p.name)

-- The two writes for one property: its value where that is not empty, and then its source.
unfoldable pub set_property : Str → List EnvVar → EnvVar → List EnvVar
set_property variable envs p =
    let valued = if p.value == [] then envs else set_val envs variable p.value in
    elim p.value_from [ none ↦ valued | some from ↦ set_value_from valued variable (some from) ]

unfoldable pub convert_properties :
    Str → Str → Str → List EnvVar → List EnvVar → Result (List EnvVar)
convert_properties source prefix datasource_name [] envs = ok envs
convert_properties source prefix datasource_name (p ∷ ps) envs =
    if contains p.name blank
    then err (
        failed (
          codes "Datasource "
          ++ source
          ++ codes " has a Property "
          ++ p.name
          ++ codes " which has spaces in its name, which is not allowed"))
    else convert_properties source prefix datasource_name ps
        (set_property (property_variable prefix datasource_name p) envs p)

module _ (factories : List (Str × ConnectionFactory)) where
  unfoldable pub prefix_of : Str → Str
  unfolding lookup to_lower
  prefix_of type = elim (lookup factories (to_lower type)) [
    | some c ↦ to_lower c.spring_boot_property_prefix
    | none ↦ codes "spring.teiid.data." ++ to_lower type
  ]

  unfoldable pub convert_source :
      DatasourceInfo → Option DataSourceObject → List EnvVar → Result (List EnvVar)
  convert_source source none envs = ok envs
  convert_source source (some configured) envs =
      if contains configured.name blank
      then err (
          failed (
            codes "Configured Datasource "
            ++ configured.name
            ++ codes " has spaces, which is not allowed"))
      else convert_properties configured.name (prefix_of source.type)
          (sanitize_name (remove_dash (to_lower source.name))) configured.properties envs

  unfoldable pub convert_sources :
      List DataSourceObject → List DatasourceInfo → List EnvVar → Result (List EnvVar)
  convert_sources configured [] envs = ok envs
  convert_sources configured (source ∷ rest) envs =
      convert_source source (find_configured_properties source.name configured) envs >>= λ envs'.
      convert_sources configured rest envs'

  unfoldable pub convert2_spring_properties :
      List DataSourceObject → List DatasourceInfo → Result (List EnvVar)
  unfolding convert_sources
  convert2_spring_properties configured sources = convert_sources configured sources []
