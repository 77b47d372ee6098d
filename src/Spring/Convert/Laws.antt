-- ===== src/Spring/Convert/Laws.antt =====
-- What convert2SpringProperties returns.
use teiid_operator.Prelude.{
  ℕ, Option-cases, not, ◌&&◌, ◌≡◌, refl, Bool, true, Option, none, some, List, [], ◌∷◌, ◌++◌, All,
  Bool-cases, inl, inr, ◌==◌, if◌then◌else◌,
}
use teiid_operator.Text.{Str, text_Eq, codes, contains, to_lower}
use teiid_operator.Result.{Result, ok, err, Ensures, Ensures-bind, is_ok, ◌>>=◌}
use teiid_operator.Envvar.{EnvVar, EnvVarSource, upsert, set_val, set_value_from}
use teiid_operator.Envvar.Unique.{IsUnique, upsert-IsUnique, AllNamed, upsert-AllNamed}
use teiid_operator.Vdbutil.{DatasourceInfo}
use teiid_operator.Vdb.{DataSourceObject}
use teiid_operator.Spring.Names.{sanitize_name, remove_dash}
use teiid_operator.Spring.Names.Sanitize.{is_ready, env_ready-All}
use teiid_operator.Spring.Convert.{
  ConnectionFactory, property_variable, set_property, convert_properties, convert_source,
  convert_sources, convert2_spring_properties, find_configured_properties, blank, prefix_of,
}

-- No dot, dash or small letter stands in the name.
abbrev pub IsReadyName : Str → Type 0
IsReadyName = All (λ (c : ℕ). is_ready c ≡ true)

-- An environment with each name once, and only names without dots, dashes and small letters.
pub record IsReady (envs : List EnvVar) : Type 0 where
  pub unique : IsUnique envs
  pub names : AllNamed IsReadyName envs

upsert-IsReady :
    (envs : List EnvVar) (v : EnvVar) → IsReadyName v.name → IsReady envs → IsReady (upsert envs v)
upsert-IsReady envs v h r = record {
  unique = upsert-IsUnique envs v r.unique;
  names = upsert-AllNamed IsReadyName envs v h r.names;
}

set_val-IsReady :
    (envs : List EnvVar) (n value : Str)
    → IsReadyName n
    → IsReady envs
    → IsReady (set_val envs n value)
unfolding set_val
set_val-IsReady envs n value h r =
    upsert-IsReady envs (record { name = n; value = value; value_from = none }) h r

set_value_from-IsReady :
    (envs : List EnvVar) (n : Str) (from : Option EnvVarSource)
    → IsReadyName n
    → IsReady envs
    → IsReady (set_value_from envs n from)
unfolding set_value_from
set_value_from-IsReady envs n from h r =
    upsert-IsReady envs (record { name = n; value = []; value_from = from }) h r

abbrev valued : Str → List EnvVar → EnvVar → List EnvVar
valued n envs p = if p.value == [] then envs else set_val envs n p.value

valued-IsReady :
    (n : Str) (envs : List EnvVar) (p : EnvVar)
    → IsReadyName n
    → IsReady envs
    → IsReady (valued n envs p)
valued-IsReady n envs p h r = elim (Bool-cases (p.value == [])) [
  | inl e ↦ rw e r
  | inr e ↦ rw e (set_val-IsReady envs n p.value h r)
]

set_property-IsReady :
    (n : Str) (envs : List EnvVar) (p : EnvVar)
    → IsReadyName n
    → IsReady envs
    → IsReady (set_property n envs p)
unfolding set_property
set_property-IsReady n envs p h r = elim (Option-cases p.value_from) [
  | inl e ↦ rw e (valued-IsReady n envs p h r)
  | inr (from, e) ↦
      rw e (set_value_from-IsReady (valued n envs p) n (some from) h (valued-IsReady n envs p h r))
]

property_variable-IsReadyName :
    (prefix name : Str) (p : EnvVar) → IsReadyName (property_variable prefix name p)
unfolding property_variable
property_variable-IsReadyName prefix name p =
    env_ready-All (prefix ++ codes "_" ++ name ++ codes "_" ++ sanitize_name p.name)

convert_properties-IsReady :
    (source prefix name : Str) (ps envs : List EnvVar)
    → IsReady envs
    → Ensures IsReady (convert_properties source prefix name ps envs)
unfolding convert_properties
convert_properties-IsReady source prefix name [] envs r = r
convert_properties-IsReady source prefix name (p ∷ ps) envs r =
    elim (Bool-cases (contains p.name blank)) [
      | inl e ↦ rw e tt
      | inr e ↦ rw e (
          convert_properties-IsReady source prefix name ps
            (set_property (property_variable prefix name p) envs p)
            (set_property-IsReady (property_variable prefix name p) envs p
              (property_variable-IsReadyName prefix name p) r))
    ]

module _ (factories : List (Str × ConnectionFactory)) where
  convert_source-IsReady :
      (source : DatasourceInfo) (found : Option DataSourceObject) (envs : List EnvVar)
      → IsReady envs
      → Ensures IsReady (convert_source factories source found envs)
  unfolding convert_source
  convert_source-IsReady source none envs r = r
  convert_source-IsReady source (some c) envs r = elim (Bool-cases (contains c.name blank)) [
    | inl e ↦ rw e tt
    | inr e ↦ rw e (
        convert_properties-IsReady c.name (prefix_of factories source.type)
          (sanitize_name (remove_dash (to_lower source.name))) c.properties envs r)
  ]

  convert_sources-IsReady :
      (configured : List DataSourceObject) (sources : List DatasourceInfo) (envs : List EnvVar)
      → IsReady envs
      → Ensures IsReady (convert_sources factories configured sources envs)
  unfolding convert_sources
  convert_sources-IsReady configured [] envs r = r
  convert_sources-IsReady configured (source ∷ rest) envs r =
      let found = find_configured_properties source.name configured in
      Ensures-bind IsReady IsReady (convert_source factories source found envs)
        (convert_sources factories configured rest) (convert_source-IsReady source found envs r)
        (convert_sources-IsReady configured rest)

  -- Whatever the data sources are, the variables made of them have each name once, and only names
  -- without dots, dashes and small letters.
  pub convert2_spring_properties-IsReady :
      (configured : List DataSourceObject) (sources : List DatasourceInfo)
      → Ensures IsReady (convert2_spring_properties factories configured sources)
  unfolding convert2_spring_properties
  convert2_spring_properties-IsReady configured sources =
      convert_sources-IsReady configured sources [] (record { unique = tt; names = tt })

abbrev pub no_blank_properties : List EnvVar → Bool
no_blank_properties [] = true
no_blank_properties (p ∷ ps) = not (contains p.name blank) && no_blank_properties ps

abbrev pub no_blanks : Option DataSourceObject → Bool
no_blanks none = true
no_blanks (some c) = not (contains c.name blank) && no_blank_properties c.properties

abbrev pub all_no_blanks : List DataSourceObject → List DatasourceInfo → Bool
all_no_blanks configured [] = true
all_no_blanks configured (source ∷ rest) =
    no_blanks (find_configured_properties source.name configured) && all_no_blanks configured rest

convert_properties-is_ok :
    (source prefix name : Str) (ps envs : List EnvVar)
    → is_ok (convert_properties source prefix name ps envs) ≡ no_blank_properties ps
unfolding convert_properties
convert_properties-is_ok source prefix name [] envs = refl
convert_properties-is_ok source prefix name (p ∷ ps) envs =
    elim (Bool-cases (contains p.name blank)) [
      | inl e ↦ rw e
      | inr e ↦ rw e (
          convert_properties-is_ok source prefix name ps
            (set_property (property_variable prefix name p) envs p))
    ]

is_ok-bind :
    (m : Result (List EnvVar)) (f : List EnvVar → Result (List EnvVar)) (a b : Bool)
    → is_ok m ≡ a
    → ((envs : List EnvVar) → is_ok (f envs) ≡ b)
    → is_ok (m >>= f) ≡ (a && b)
is_ok-bind (ok envs) f a b h k = rw (← h) (k envs)
is_ok-bind (err e) f a b h k = rw (← h)

module _ (factories : List (Str × ConnectionFactory)) where
  convert_source-is_ok :
      (source : DatasourceInfo) (found : Option DataSourceObject) (envs : List EnvVar)
      → is_ok (convert_source factories source found envs) ≡ no_blanks found
  unfolding convert_source
  convert_source-is_ok source none envs = refl
  convert_source-is_ok source (some c) envs = elim (Bool-cases (contains c.name blank)) [
    | inl e ↦ rw e
    | inr e ↦ rw e (
        convert_properties-is_ok c.name (prefix_of factories source.type)
          (sanitize_name (remove_dash (to_lower source.name))) c.properties envs)
  ]

  convert_sources-is_ok :
      (configured : List DataSourceObject) (sources : List DatasourceInfo) (envs : List EnvVar)
      → is_ok (convert_sources factories configured sources envs) ≡ all_no_blanks configured sources
  unfolding convert_sources
  convert_sources-is_ok configured [] envs = refl
  convert_sources-is_ok configured (source ∷ rest) envs =
      let found = find_configured_properties source.name configured in
      is_ok-bind (convert_source factories source found envs)
        (convert_sources factories configured rest) (no_blanks found)
        (all_no_blanks configured rest) (convert_source-is_ok source found envs)
        (convert_sources-is_ok configured rest)

  -- The conversion fails exactly if a source of the DDL has a configuration whose name, or the name of one
  -- of whose properties, holds a blank.
  pub convert2_spring_properties-is_ok :
      (configured : List DataSourceObject) (sources : List DatasourceInfo)
      → is_ok (convert2_spring_properties factories configured sources)
        ≡ all_no_blanks configured sources
  unfolding convert2_spring_properties
  convert2_spring_properties-is_ok configured sources = convert_sources-is_ok configured sources []
