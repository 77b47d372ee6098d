-- ===== src/Tests/Texts.antt =====
-- Names, environments and numbers.
use teiid_operator.Prelude.{◌≡◌, refl, ◌↔◌, true, List, some, [], ◌∷◌, or_else}
use teiid_operator.Text.{Str, codes, text_Eq, text_beq, to_lower}
use teiid_operator.Result.{Ensures, ok, is_ok}
use teiid_operator.Envvar.{EnvVar, get, combine}
use teiid_operator.Envvar.Lookup.{get-combine}
use teiid_operator.Proxy.{proxy_envs}
use teiid_operator.Proxy.Laws.{proxy_envs-keeps}
use teiid_operator.Vdbutil.{DatasourceInfo, validate_data_source_names}
use teiid_operator.Vdbutil.Names.{all_named, validate_data_source_names_iff}
use teiid_operator.Controller.Kubernetes.{validate_environment_property_names}
use teiid_operator.Controller.Kubernetes.Names.{
  all_capital, validate_environment_property_names_iff,
}
use teiid_operator.Spring.Names.{tokenize_at_upper_case, sanitize_name, remove_dash}
use teiid_operator.Spring.Names.Tokens.{words, tokenize_at_upper_case-eq-words}
use teiid_operator.Spring.Names.Sanitize.{sanitize_name-letters}
use teiid_operator.Spring.Convert.{convert2_spring_properties}
use teiid_operator.Spring.Convert.Laws.{
  IsReady, all_no_blanks, convert2_spring_properties-IsReady, convert2_spring_properties-is_ok,
}
use teiid_operator.Vdb.{DataSourceObject}
use teiid_operator.Tests.Samples.{variable}

abbrev host : EnvVar
host = variable (codes "HOST") (codes "a")

abbrev port : EnvVar
port = variable (codes "PORT") (codes "1")

abbrev other_host : EnvVar
other_host = variable (codes "HOST") (codes "b")

get-combine_example :
    get (combine (host ∷ []) (other_host ∷ port ∷ [])) (codes "HOST")
    ≡ or_else (get (host ∷ []) (codes "HOST")) (get (other_host ∷ port ∷ []) (codes "HOST"))
get-combine_example = get-combine (host ∷ []) (other_host ∷ port ∷ []) (codes "HOST")

get_host : get (host ∷ port ∷ []) (codes "HOST") ≡ some host
unfolding get text_beq
get_host = refl

proxy_envs-keeps_example :
    get (proxy_envs (λ name. some (codes "http://proxy:80")) (host ∷ port ∷ [])) (codes "HOST")
    ≡ some host
proxy_envs-keeps_example =
    proxy_envs-keeps (λ name. some (codes "http://proxy:80")) (host ∷ port ∷ []) (codes "HOST")
      get_host

abbrev no_proxy : Str
no_proxy = codes "a.b, c"

validate_data_source_names_iff_example :
    (validate_data_source_names (record { name = codes "a1"; type = codes "h2" } ∷ []) ≡ ok tt)
    ↔ (all_named (record { name = codes "a1"; type = codes "h2" } ∷ []) ≡ true)
validate_data_source_names_iff_example =
    validate_data_source_names_iff (record { name = codes "a1"; type = codes "h2" } ∷ [])

validate_environment_property_names_iff_example :
    (validate_environment_property_names (host ∷ []) ≡ ok tt) ↔ (all_capital (host ∷ []) ≡ true)
validate_environment_property_names_iff_example =
    validate_environment_property_names_iff (host ∷ [])

tokenize_at_upper_case_example :
    tokenize_at_upper_case (codes "userName") ≡ words (codes "userName")
tokenize_at_upper_case_example = tokenize_at_upper_case-eq-words (codes "userName")

sanitize_name-letters_example :
    (remove_dash (sanitize_name (codes "userName")) ≡ remove_dash (to_lower (codes "userName")))
    × (to_lower (sanitize_name (codes "userName")) ≡ sanitize_name (codes "userName"))
sanitize_name-letters_example = sanitize_name-letters (codes "userName")

abbrev configured_sources : List DataSourceObject
configured_sources =
    record { name = codes "accounts"; type = codes "postgresql"; properties = port ∷ [] } ∷ []

abbrev declared_sources : List DatasourceInfo
declared_sources = record { name = codes "accounts"; type = codes "postgresql" } ∷ []

convert2_spring_properties-IsReady_example :
    Ensures IsReady (convert2_spring_properties [] configured_sources declared_sources)
convert2_spring_properties-IsReady_example =
    convert2_spring_properties-IsReady [] configured_sources declared_sources

convert2_spring_properties-is_ok_example :
    is_ok (convert2_spring_properties [] configured_sources declared_sources)
    ≡ all_no_blanks configured_sources declared_sources
convert2_spring_properties-is_ok_example =
    convert2_spring_properties-is_ok [] configured_sources declared_sources
